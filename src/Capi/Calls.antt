-- ===== src/Capi/Calls.antt =====
-- A run of C calls against a run of the engine's operations.
use seekserve.Common.{ℕ, ◌≡◌, ◌↔◌, refl, ap, ◌∙◌, Bool, Option, none, some, List, [], ◌∷◌}
use seekserve.Common.Int.{ℤ}
use seekserve.Common.Bytes.{Bytes}
use seekserve.Types.{
  TorrentId, FileIndex, Errc, Result, ok, err, success, torrent_not_found, file_not_found,
  metadata_not_ready, piece_not_available, timeout_waiting_for_piece, range_not_satisfiable,
  server_already_running, session_not_started, invalid_argument, io_error, cancelled,
}
use seekserve.Http.Registry.{Network}
use seekserve.Session.{Libtorrent}
use seekserve.Engine.State.{Engine}
use seekserve.Engine.Torrents.{add_torrent, remove_torrent, pause_torrent, resume_torrent}
use seekserve.Engine.Selection.{select_file}
use seekserve.Engine.Servers.{start_server}
use seekserve.Engine.Ops.{Op, adds, removes, pauses, resumes, selects, starts, stops, step, run_ops}
use seekserve.Capi.{
  ss_ok, map_error, added, finished, started, ss_add_torrent, ss_remove_torrent, ss_pause_torrent,
  ss_resume_torrent, ss_select_file, ss_start_server, ss_stop_server,
}

-- A call that can change the engine, with its pointers.
pub data Call : Type 0 where
  add_torrent_call : Libtorrent → ℕ → Option Bytes → Option ℕ → Call
  remove_torrent_call : Option TorrentId → Call
  pause_torrent_call : Libtorrent → Option TorrentId → Call
  resume_torrent_call : Libtorrent → Option TorrentId → Call
  select_file_call : Libtorrent → ℕ → Option TorrentId → FileIndex → Call
  start_server_call : Network → Result ℕ → Bool → Call
  stop_server_call : Call

-- The engine behind a call, and the code.
unfoldable pub call : Call → Engine → Engine × ℤ
unfolding ss_add_torrent ss_remove_torrent ss_pause_torrent ss_resume_torrent ss_select_file
    ss_start_server ss_stop_server
call (add_torrent_call lt now uri out) en =
    let r = ss_add_torrent lt now uri out en in (r.engine, r.code)
call (remove_torrent_call id) en = let r = ss_remove_torrent id en in (r.engine, r.code)
call (pause_torrent_call lt id) en = let r = ss_pause_torrent lt id en in (r.engine, r.code)
call (resume_torrent_call lt id) en = let r = ss_resume_torrent lt id en in (r.engine, r.code)
call (select_file_call lt now id fi) en =
    let r = ss_select_file lt now id fi en in (r.engine, r.code)
call (start_server_call net api out) en =
    let r = ss_start_server net api out en in (r.engine, r.code)
call stop_server_call en = let r = ss_stop_server en in (r.engine, r.code)

unfoldable pub run_calls : List Call → Engine → Engine
unfolding call
run_calls [] en = en
run_calls (c ∷ cs) en = run_calls cs (call c en).0

-- The operations that the calls stand for: none, if the URI or the id is a null pointer. A null pointer for
-- the id or the port that is written stops nothing.
abbrev pub ops_of : List Call → List Op
ops_of [] = []
ops_of (add_torrent_call lt now none out ∷ cs) = ops_of cs
ops_of (add_torrent_call lt now (some uri) out ∷ cs) = adds lt uri [] now ∷ ops_of cs
ops_of (remove_torrent_call none ∷ cs) = ops_of cs
ops_of (remove_torrent_call (some id) ∷ cs) = removes id ∷ ops_of cs
ops_of (pause_torrent_call lt none ∷ cs) = ops_of cs
ops_of (pause_torrent_call lt (some id) ∷ cs) = pauses lt id ∷ ops_of cs
ops_of (resume_torrent_call lt none ∷ cs) = ops_of cs
ops_of (resume_torrent_call lt (some id) ∷ cs) = resumes lt id ∷ ops_of cs
ops_of (select_file_call lt now none fi ∷ cs) = ops_of cs
ops_of (select_file_call lt now (some id) fi ∷ cs) = selects lt now id fi ∷ ops_of cs
ops_of (start_server_call net api out ∷ cs) = starts net api ∷ ops_of cs
ops_of (stop_server_call ∷ cs) = stops ∷ ops_of cs

added-engine : (out : Option ℕ) (p : Engine × Result TorrentId) → (added out p).engine ≡ p.0
added-engine out (en, err e) = refl
added-engine none (en, ok id) = refl
added-engine (some n) (en, ok id) = refl

finished-engine : (p : Engine × Result (Unit {0})) → (finished p).engine ≡ p.0
finished-engine (en, result) = refl

started-engine : (out : Bool) (p : Engine × Result ℕ) → (started out p).engine ≡ p.0
started-engine out (en, err e) = refl
started-engine out (en, ok port) = refl

-- A run of calls of the C API leaves the engine as the operations do that the calls stand for.
run_calls-run_ops : (cs : List Call) (en : Engine) → run_calls cs en ≡ run_ops (ops_of cs) en
unfolding run_calls call run_ops step ss_add_torrent ss_remove_torrent ss_pause_torrent
    ss_resume_torrent ss_select_file ss_start_server ss_stop_server
run_calls-run_ops [] en = refl
run_calls-run_ops (add_torrent_call lt now none out ∷ cs) en = run_calls-run_ops cs en
run_calls-run_ops (add_torrent_call lt now (some uri) out ∷ cs) en =
    ap (run_calls cs) (added-engine out (add_torrent lt uri [] now en)) ∙ run_calls-run_ops cs _
run_calls-run_ops (remove_torrent_call none ∷ cs) en = run_calls-run_ops cs en
run_calls-run_ops (remove_torrent_call (some id) ∷ cs) en =
    ap (run_calls cs) (finished-engine (remove_torrent id en)) ∙ run_calls-run_ops cs _
run_calls-run_ops (pause_torrent_call lt none ∷ cs) en = run_calls-run_ops cs en
run_calls-run_ops (pause_torrent_call lt (some id) ∷ cs) en =
    ap (run_calls cs) (finished-engine (pause_torrent lt id en)) ∙ run_calls-run_ops cs _
run_calls-run_ops (resume_torrent_call lt none ∷ cs) en = run_calls-run_ops cs en
run_calls-run_ops (resume_torrent_call lt (some id) ∷ cs) en =
    ap (run_calls cs) (finished-engine (resume_torrent lt id en)) ∙ run_calls-run_ops cs _
run_calls-run_ops (select_file_call lt now none fi ∷ cs) en = run_calls-run_ops cs en
run_calls-run_ops (select_file_call lt now (some id) fi ∷ cs) en =
    ap (run_calls cs) (finished-engine (select_file lt now id fi en)) ∙ run_calls-run_ops cs _
run_calls-run_ops (start_server_call net api out ∷ cs) en =
    ap (run_calls cs) (started-engine out (start_server net api en)) ∙ run_calls-run_ops cs _
run_calls-run_ops (stop_server_call ∷ cs) en = run_calls-run_ops cs _

-- No error is reported as SS_OK, and success is.
pub map_error-ss_ok : (e : Errc) → (map_error e ≡ ss_ok) ↔ (e ≡ success)
unfolding map_error
map_error-ss_ok success = (λ p. refl, λ p. refl)
map_error-ss_ok torrent_not_found = (λ p. cc, λ p. cc)
map_error-ss_ok file_not_found = (λ p. cc, λ p. cc)
map_error-ss_ok metadata_not_ready = (λ p. cc, λ p. cc)
map_error-ss_ok piece_not_available = (λ p. cc, λ p. cc)
map_error-ss_ok timeout_waiting_for_piece = (λ p. cc, λ p. cc)
map_error-ss_ok range_not_satisfiable = (λ p. cc, λ p. cc)
map_error-ss_ok server_already_running = (λ p. cc, λ p. cc)
map_error-ss_ok session_not_started = (λ p. cc, λ p. cc)
map_error-ss_ok invalid_argument = (λ p. cc, λ p. cc)
map_error-ss_ok io_error = (λ p. cc, λ p. cc)
map_error-ss_ok cancelled = (λ p. cc, λ p. cc)
