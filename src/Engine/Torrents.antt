-- ===== src/Engine/Torrents.antt =====
-- engine.cpp: adding, removing, pausing, resuming and listing torrents.
use seekserve.Common.{ℕ, none, some, List, ◌∷◌, map}
use seekserve.Common.Bytes.{Bytes}
use seekserve.Common.Assoc.{erase}
use seekserve.Types.{TorrentId, Result, ok, err, torrent_not_found}
use seekserve.Http.Registry.{remove_byte_sources_for_torrent}
use seekserve.Catalog.{remove as catalog_remove}
use seekserve.Cache.{Cache, TorrentRow, save_torrent_uri, remove_torrent_uri, list_torrent_uris}
use seekserve.Session.{
  Libtorrent, add_torrent as session_add, remove_torrent as session_remove, get_handle,
}
use seekserve.Engine.State.{
  Event, Engine, fire_event, on_server, valid_handle, torrent_paused, torrent_resumed,
}

-- The URI is saved for a torrent that was added.
abbrev pub save_added : Bytes → ℕ → Result TorrentId → Cache → Cache
save_added uri now (err e) cache = cache
save_added uri now (ok id) cache = save_torrent_uri id uri now cache

unfoldable pub add_torrent : Libtorrent → Bytes → Bytes → ℕ → Engine → Engine × Result TorrentId
unfolding session_add save_torrent_uri
add_torrent lt uri save_path now en =
    let (session, result) = session_add lt uri save_path en.session in
    (record en { session = session; cache = save_added uri now result en.cache }, result)

-- `delete_files` only chooses the flags that libtorrent gets, which keep or delete what it downloaded.
unfoldable pub remove_torrent : TorrentId → Engine → Engine × Result (Unit {0})
unfolding remove_torrent_uri remove_byte_sources_for_torrent erase catalog_remove session_remove
remove_torrent id en =
    let removed = session_remove id en.session in
    (
      record en {
        session = removed.0;
        catalog = catalog_remove id en.catalog;
        cache = remove_torrent_uri id en.cache;
        http_server = on_server (remove_byte_sources_for_torrent id) en.http_server;
        states = erase id en.states;
        removed_ids = id ∷ en.removed_ids;
      },
      removed.1,
    )

-- pause_torrent and resume_torrent, which differ in the call of the handle and in the event.
unfoldable pub notify_handle :
    Libtorrent → (TorrentId → Event) → TorrentId → Engine → Engine × Result (Unit {0})
unfolding get_handle
notify_handle lt event id en = elim (valid_handle lt id en) [
  | none ↦ (en, err torrent_not_found)
  | some handle ↦ (fire_event (event id) en, ok tt)
]

abbrev pub pause_torrent : Libtorrent → TorrentId → Engine → Engine × Result (Unit {0})
pause_torrent lt id en = notify_handle lt torrent_paused id en

abbrev pub resume_torrent : Libtorrent → TorrentId → Engine → Engine × Result (Unit {0})
resume_torrent lt id en = notify_handle lt torrent_resumed id en

unfoldable pub list_torrents : (List TorrentRow → List TorrentRow) → Engine → List TorrentId
unfolding list_torrent_uris
list_torrents by_added en =
    map (λ (r : TorrentId × Bytes). r.0) (list_torrent_uris by_added en.cache)
