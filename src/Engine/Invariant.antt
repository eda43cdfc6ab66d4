-- ===== src/Engine/Invariant.antt =====
-- An invariant of the engine's selections, over every run.
use seekserve.Common.{
  ℕ, Bool, true, false, Option, none, some, List, [], ◌∷◌, if◌then◌else◌, inl, inr, Bool-cases,
  Option-cases,
}
use seekserve.Common.Assoc.{AllEntries-erase}
use seekserve.Types.{TorrentId, Result, ok, err, server_already_running}
use seekserve.Http.Registry.{Server, Network, make_server, start}
use seekserve.Catalog.{TorrentInfo}
use seekserve.Session.{Libtorrent}
use seekserve.Engine.State.{
  Engine, Event, is_removed, valid_handle, torrent_paused, torrent_resumed,
}
use seekserve.Engine.Alerts.{on_metadata_alert, on_add_alert, on_file_alert}
use seekserve.Engine.Torrents.{add_torrent, remove_torrent, notify_handle}
use seekserve.Engine.Servers.{start_server, start_api, stop_server}
use seekserve.Engine.Control.{on_connection, control_of, with_control}
use seekserve.Api.State.{ApiRequest, Outside}
use seekserve.Api.Handler.{handle_connection}
use seekserve.Engine.Ops.{
  Op, adds, removes, pauses, resumes, selects, starts, stops, metadata, added, piece, file, ticks,
  connects, step, run_ops,
}
use seekserve.Engine.Sound.{
  IsSelection, IsSound, on_piece_alert-IsSound, on_tick-IsSound, select_file-IsSound,
}

notify_handle-IsSound :
    (lt : Libtorrent) (event : TorrentId → Event) (id : TorrentId) (en : Engine)
    → IsSound en
    → IsSound (notify_handle lt event id en).0
unfolding notify_handle
notify_handle-IsSound lt event id en h = elim (Option-cases (valid_handle lt id en)) [
  | inl invalid ↦ rw (invalid, notify_handle) h
  | inr (handle, valid) ↦ rw (valid, notify_handle) h
]

start_api-IsSound :
    (api : Result ℕ) (en : Engine) (sv : Server) (r : Result ℕ)
    → IsSound en
    → IsSound (start_api api en sv r).0
start_api-IsSound api en sv (err e) h = h
start_api-IsSound (err e) en sv (ok port) h = h
start_api-IsSound (ok api_port) en sv (ok port) h = h

branch-IsSound :
    (b : Bool) (x y : Engine × Result ℕ)
    → IsSound x.0
    → IsSound y.0
    → IsSound (if b then x else y).0
branch-IsSound true x y hx hy = hx
branch-IsSound false x y hx hy = hy

start_server-IsSound :
    (net : Network) (api : Result ℕ) (en : Engine)
    → IsSound en
    → IsSound (start_server net api en).0
unfolding start_server
start_server-IsSound net api en h =
    branch-IsSound en.server_running (en, err server_already_running)
      (start_api api en started.0 started.1) h (start_api-IsSound api en started.0 started.1 h)
  where
    started : Server × Result ℕ
    started =
        start net en.config.stream_port
          (make_server en.config.bind_address en.config.max_concurrent_streams en.config.auth_token)

stop_server-IsSound : (en : Engine) → IsSound en → IsSound (stop_server en)
unfolding stop_server
stop_server-IsSound en h = elim (Bool-cases en.server_running) [
  | inl on ↦ rw (on, stop_server) h
  | inr off ↦ rw (off, stop_server) h
]

on_metadata_alert-IsSound :
    (id : TorrentId) (ti : TorrentInfo) (now : ℕ) (en : Engine)
    → IsSound en
    → IsSound (on_metadata_alert id ti now en)
unfolding on_metadata_alert
on_metadata_alert-IsSound id ti now en h = elim (Bool-cases (is_removed id en.removed_ids)) [
  | inl gone ↦ rw (gone, on_metadata_alert) h
  | inr known ↦ rw (known, on_metadata_alert) h
]

on_add_alert-IsSound :
    (failed : Bool) (info : Option (TorrentId × TorrentInfo)) (now : ℕ) (en : Engine)
    → IsSound en
    → IsSound (on_add_alert failed info now en)
unfolding on_add_alert
on_add_alert-IsSound true info now en h = h
on_add_alert-IsSound false none now en h = h
on_add_alert-IsSound false (some (id, ti)) now en h = on_metadata_alert-IsSound id ti now en h

stopped-IsSound : (b : Bool) (en : Engine) → IsSound en → IsSound (if b then stop_server en else en)
stopped-IsSound true en h = stop_server-IsSound en h
stopped-IsSound false en h = h

on_connection-IsSound :
    (lt : Libtorrent) (outside : Outside) (req : Option ApiRequest) (en : Engine)
    → IsSound en
    → IsSound (on_connection lt outside req en)
unfolding on_connection
on_connection-IsSound lt outside req en h = elim (Option-cases en.http_server) [
  | inl off ↦ rw (off, on_connection) h
  | inr (sv, on) ↦
      let o = handle_connection lt outside req (control_of en sv) in
      rw (on, on_connection) (stopped-IsSound o.shuts_down (with_control en o.control) h)
]

step-IsSound : (op : Op) (en : Engine) → IsSound en → IsSound (step op en)
unfolding step add_torrent on_file_alert remove_torrent
step-IsSound (adds lt uri save_path now) en h = h
step-IsSound (removes id) en h =
    AllEntries-erase (IsSelection en.fresh en.config.scheduler) id en.states h
step-IsSound (pauses lt id) en h = notify_handle-IsSound lt torrent_paused id en h
step-IsSound (resumes lt id) en h = notify_handle-IsSound lt torrent_resumed id en h
step-IsSound (selects lt now id fi) en h = select_file-IsSound lt now id fi en h
step-IsSound (starts net api) en h = start_server-IsSound net api en h
step-IsSound stops en h = stop_server-IsSound en h
step-IsSound (metadata id ti now) en h = on_metadata_alert-IsSound id ti now en h
step-IsSound (added failed info now) en h = on_add_alert-IsSound failed info now en h
step-IsSound (piece id p) en h = on_piece_alert-IsSound id p en h
step-IsSound (file id fi now) en h = h
step-IsSound (ticks lt rate now clock failed) en h = on_tick-IsSound lt rate now clock failed en h
step-IsSound (connects lt outside req) en h = on_connection-IsSound lt outside req en h

-- The invariant over a run of operations.
pub run_ops-IsSound : (ops : List Op) (en : Engine) → IsSound en → IsSound (run_ops ops en)
unfolding run_ops
run_ops-IsSound [] en h = h
run_ops-IsSound (op ∷ ops) en h = run_ops-IsSound ops (step op en) (step-IsSound op en h)
