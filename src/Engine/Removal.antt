-- ===== src/Engine/Removal.antt =====
-- What a removed torrent leaves behind, over every later run of the engine.
use seekserve.Common.{
  ℕ, ◌≡◌, refl, ◌∙◌, Bool, true, false, none, List, [], ◌∷◌, arith, if◌then◌else◌, inl, inr,
  Bool-cases, Option, Option-cases,
}
use seekserve.Common.Bytes.{bytes_eq, bytes_eq_refl}
use seekserve.Common.Assoc.{lookup, lookup-erase}
use seekserve.Types.{TorrentId, Result, ok, err, metadata_not_ready, server_already_running}
use seekserve.Http.Registry.{Server, Network, make_server, start}
use seekserve.Catalog.{list_files, remove as catalog_remove}
use seekserve.Session.{Libtorrent}
use seekserve.Engine.State.{Engine, is_removed, torrent_paused, torrent_resumed}
use seekserve.Engine.Alerts.{on_file_alert}
use seekserve.Engine.Ticks.{on_tick}
use seekserve.Engine.Torrents.{add_torrent, remove_torrent}
use seekserve.Engine.Servers.{start_server, start_api, stop_server}
use seekserve.Engine.Control.{on_connection, control_of, with_control}
use seekserve.Engine.Requests.{handle_connection-IsAbsent}
use seekserve.Api.State.{Control, ApiRequest, Outside}
use seekserve.Api.Handler.{handle_connection}
use seekserve.Engine.Ops.{
  Op, adds, removes, pauses, resumes, selects, starts, stops, metadata, added, piece, file, ticks,
  connects, step, run_ops,
}
use seekserve.Engine.Gone.{
  Gone, Gone-same, on_metadata_alert-Gone, on_add_alert-Gone, on_piece_alert-Gone,
  notify_handle-Gone, select_file-Gone,
}

start_api-Gone :
    (id : TorrentId) (api : Result ℕ) (en : Engine) (sv : Server) (r : Result ℕ)
    → Gone id en
    → Gone id (start_api api en sv r).0
start_api-Gone id api en sv (err e) g = Gone-same id g refl refl
start_api-Gone id (err e) en sv (ok port) g = Gone-same id g refl refl
start_api-Gone id (ok api_port) en sv (ok port) g = Gone-same id g refl refl

branch-Gone :
    (id : TorrentId) (b : Bool) (x y : Engine × Result ℕ)
    → Gone id x.0
    → Gone id y.0
    → Gone id (if b then x else y).0
branch-Gone id true x y gx gy = gx
branch-Gone id false x y gx gy = gy

start_server-Gone :
    (id : TorrentId) (net : Network) (api : Result ℕ) (en : Engine)
    → Gone id en
    → Gone id (start_server net api en).0
unfolding start_server
start_server-Gone id net api en g =
    branch-Gone id en.server_running (en, err server_already_running)
      (start_api api en started.0 started.1) g (start_api-Gone id api en started.0 started.1 g)
  where
    started : Server × Result ℕ
    started =
        start net en.config.stream_port
          (make_server en.config.bind_address en.config.max_concurrent_streams en.config.auth_token)

stop_server-Gone : (id : TorrentId) (en : Engine) → Gone id en → Gone id (stop_server en)
unfolding stop_server
stop_server-Gone id en g = elim (Bool-cases en.server_running) [
  | inl on ↦ rw (on, stop_server) (Gone-same id g refl refl)
  | inr off ↦ rw (off, stop_server) (Gone-same id g refl refl)
]

remove_torrent-Gone :
    (id id' : TorrentId) (en : Engine) → Gone id en → Gone id (remove_torrent id' en).0
unfolding remove_torrent is_removed catalog_remove
remove_torrent-Gone id id' en g = record {
  marked = ground (arith, g.marked);
  absent = lookup-erase id' id en.catalog ∙ still (bytes_eq id' id);
}
  where
    still : (b : Bool) → (if b then none else lookup id en.catalog) ≡ none
    still true = refl
    still false = g.absent

remove_torrent-marks : (id : TorrentId) (en : Engine) → Gone id (remove_torrent id en).0
unfolding remove_torrent is_removed catalog_remove
remove_torrent-marks id en = record {
  marked = rw (bytes_eq_refl id) refl;
  absent = lookup-erase id id en.catalog ∙ rw (bytes_eq_refl id) refl;
}

on_tick-Gone :
    (id : TorrentId) (lt : Libtorrent) (rate : ℕ → ℕ) (now clock : ℕ) (failed : Bool) (en : Engine)
    → Gone id en
    → Gone id (on_tick lt rate now clock failed en)
unfolding on_tick
on_tick-Gone id lt rate now clock true en g = g
on_tick-Gone id lt rate now clock false en g = Gone-same id g refl refl

with_control-Gone :
    (id : TorrentId) (en : Engine) (c : Control)
    → Gone id en
    → lookup id c.catalog ≡ none
    → Gone id (with_control en c)
with_control-Gone id en c g absent = record { marked = g.marked; absent = absent }

stopped-Gone :
    (id : TorrentId) (b : Bool) (en : Engine)
    → Gone id en
    → Gone id (if b then stop_server en else en)
stopped-Gone id true en g = stop_server-Gone id en g
stopped-Gone id false en g = g

on_connection-Gone :
    (id : TorrentId) (lt : Libtorrent) (outside : Outside) (req : Option ApiRequest) (en : Engine)
    → Gone id en
    → Gone id (on_connection lt outside req en)
unfolding on_connection
on_connection-Gone id lt outside req en g = elim (Option-cases en.http_server) [
  | inl off ↦ rw (off, on_connection) g
  | inr (sv, on) ↦
      let o = handle_connection lt outside req (control_of en sv) in
      rw (on, on_connection)
        (stopped-Gone id o.shuts_down (with_control en o.control) (
          with_control-Gone id en o.control g
            (handle_connection-IsAbsent lt outside id (control_of en sv) g.absent req)))
]

step-Gone : (id : TorrentId) (op : Op) (en : Engine) → Gone id en → Gone id (step op en)
unfolding step add_torrent on_file_alert
step-Gone id (adds lt uri save_path now) en g = Gone-same id g refl refl
step-Gone id (removes id') en g = remove_torrent-Gone id id' en g
step-Gone id (pauses lt id') en g = notify_handle-Gone id lt torrent_paused id' en g
step-Gone id (resumes lt id') en g = notify_handle-Gone id lt torrent_resumed id' en g
step-Gone id (selects lt now id' fi) en g = select_file-Gone id lt now id' fi en g
step-Gone id (starts net api) en g = start_server-Gone id net api en g
step-Gone id stops en g = stop_server-Gone id en g
step-Gone id (metadata id' ti now) en g = on_metadata_alert-Gone id id' ti now en g
step-Gone id (added failed info now) en g = on_add_alert-Gone id failed info now en g
step-Gone id (piece id' p) en g = on_piece_alert-Gone id id' p en g
step-Gone id (file id' fi now) en g = Gone-same id g refl refl
step-Gone id (ticks lt rate now clock failed) en g = on_tick-Gone id lt rate now clock failed en g
step-Gone id (connects lt outside req) en g = on_connection-Gone id lt outside req en g

run_ops-Gone :
    (id : TorrentId) (ops : List Op) (en : Engine) → Gone id en → Gone id (run_ops ops en)
unfolding run_ops
run_ops-Gone id [] en g = g
run_ops-Gone id (op ∷ ops) en g = run_ops-Gone id ops (step op en) (step-Gone id op en g)

-- After a torrent has been removed, its files are never listed again, whatever operations, alerts, ticks
-- and requests of the control server come later, also when it is added again: `list_files` answers
-- `metadata_not_ready` after every such run.
pub list_files_after_removal :
    (id : TorrentId) (ops : List Op) (en : Engine)
    → list_files id (run_ops ops (remove_torrent id en).0).catalog ≡ err metadata_not_ready
unfolding list_files
list_files_after_removal id ops en =
    rw
      (
        (run_ops-Gone id ops (remove_torrent id en).0 (remove_torrent-marks id en)).absent,
        list_files,
      )
      refl
