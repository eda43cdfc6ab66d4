-- ===== src/Engine/Alerts.antt =====
-- engine.cpp: the handlers that `wire_alerts` registers, each one step on the state.
use seekserve.Common.{ℕ, Bool, true, false, Option, none, some, List, if◌then◌else◌}
use seekserve.Common.Assoc.{lookup, insert}
use seekserve.Types.{TorrentId, FileIndex, PieceIndex, FileInfo, Result, ok, err}
use seekserve.Availability.{mark_complete}
use seekserve.Scheduler.{on_piece_complete}
use seekserve.Catalog.{TorrentInfo, on_metadata_received, list_files}
use seekserve.Cache.{Cache, on_torrent_added, on_file_completed}
use seekserve.Engine.State.{
  TorrentState, Engine, is_removed, fire_event, metadata_received, file_completed, alert_error,
}

-- cache_->on_torrent_added, if the catalog lists the files
abbrev pub cache_files : TorrentId → ℕ → Result (List FileInfo) → Cache → Cache
cache_files id now (err e) cache = cache
cache_files id now (ok files) cache = on_torrent_added id files now cache

-- metadata_received_alert, and add_torrent_alert with metadata; `now` is the clock of the cache.
unfoldable pub on_metadata_alert : TorrentId → TorrentInfo → ℕ → Engine → Engine
unfolding is_removed on_metadata_received list_files
on_metadata_alert id ti now en =
    let catalog = on_metadata_received id ti en.catalog in
    if is_removed id en.removed_ids
    then en
    else fire_event (metadata_received id) (record en {
      catalog = catalog;
      cache = cache_files id now (list_files id catalog) en.cache;
    })

-- add_torrent_alert: an error, or the metadata that the file held.
unfoldable pub on_add_alert : Bool → Option (TorrentId × TorrentInfo) → ℕ → Engine → Engine
unfolding on_metadata_alert
on_add_alert true info now en = fire_event alert_error en
on_add_alert false none now en = en
on_add_alert false (some (id, ti)) now en = on_metadata_alert id ti now en

abbrev pub piece_on : PieceIndex → TorrentState → TorrentState
piece_on piece state = record state {
  avail = mark_complete state.avail piece;
  scheduler = on_piece_complete state.scheduler piece;
}

-- piece_finished_alert
unfoldable pub on_piece_alert : TorrentId → PieceIndex → Engine → Engine
unfolding lookup insert mark_complete on_piece_complete
on_piece_alert id piece en = elim (lookup id en.states) [
  | none ↦ en
  | some state ↦ record en { states = insert id (piece_on piece state) en.states }
]

-- file_completed_alert
unfoldable pub on_file_alert : TorrentId → FileIndex → ℕ → Engine → Engine
unfolding on_file_completed
on_file_alert id fi now en =
    fire_event (file_completed id fi) (record en { cache = on_file_completed id fi now en.cache })
