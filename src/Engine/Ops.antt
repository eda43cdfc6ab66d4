-- ===== src/Engine/Ops.antt =====
-- The engine as a machine: the operations of the facade, the alerts, the timer and the connections of the
-- control server, one after the other.
use seekserve.Common.{ℕ, Bool, Option, List, [], ◌∷◌}
use seekserve.Common.Bytes.{Bytes}
use seekserve.Types.{TorrentId, FileIndex, PieceIndex, Result}
use seekserve.Http.Registry.{Network}
use seekserve.Catalog.{TorrentInfo}
use seekserve.Session.{Libtorrent}
use seekserve.Engine.State.{Engine, torrent_paused, torrent_resumed}
use seekserve.Engine.Alerts.{on_metadata_alert, on_add_alert, on_piece_alert, on_file_alert}
use seekserve.Engine.Ticks.{on_tick}
use seekserve.Engine.Torrents.{add_torrent, remove_torrent, notify_handle}
use seekserve.Engine.Selection.{select_file}
use seekserve.Engine.Servers.{start_server, stop_server}
use seekserve.Engine.Control.{on_connection}
use seekserve.Api.State.{Outside, ApiRequest}

-- An operation of the facade, an alert, the timer, or a connection of the control server.
pub data Op : Type 0 where
  adds : Libtorrent → Bytes → Bytes → ℕ → Op
  removes : TorrentId → Op
  pauses : Libtorrent → TorrentId → Op
  resumes : Libtorrent → TorrentId → Op
  selects : Libtorrent → ℕ → TorrentId → FileIndex → Op
  starts : Network → Result ℕ → Op
  stops : Op
  metadata : TorrentId → TorrentInfo → ℕ → Op
  added : Bool → Option (TorrentId × TorrentInfo) → ℕ → Op
  piece : TorrentId → PieceIndex → Op
  file : TorrentId → FileIndex → ℕ → Op
  ticks : Libtorrent → (ℕ → ℕ) → ℕ → ℕ → Bool → Op
  connects : Libtorrent → Outside → Option ApiRequest → Op

unfoldable pub step : Op → Engine → Engine
unfolding on_metadata_alert on_add_alert on_piece_alert on_file_alert add_torrent remove_torrent
    on_tick on_connection notify_handle select_file start_server stop_server
step (adds lt uri save_path now) en = (add_torrent lt uri save_path now en).0
step (removes id) en = (remove_torrent id en).0
step (pauses lt id) en = (notify_handle lt torrent_paused id en).0
step (resumes lt id) en = (notify_handle lt torrent_resumed id en).0
step (selects lt now id fi) en = (select_file lt now id fi en).0
step (starts net api) en = (start_server net api en).0
step stops en = stop_server en
step (metadata id ti now) en = on_metadata_alert id ti now en
step (added failed info now) en = on_add_alert failed info now en
step (piece id p) en = on_piece_alert id p en
step (file id fi now) en = on_file_alert id fi now en
step (ticks lt rate now clock failed) en = on_tick lt rate now clock failed en
step (connects lt outside req) en = on_connection lt outside req en

unfoldable pub run_ops : List Op → Engine → Engine
unfolding step
run_ops [] en = en
run_ops (op ∷ ops) en = run_ops ops (step op en)
