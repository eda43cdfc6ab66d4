-- ===== src/Engine/Saved.antt =====
-- What the constructor leaves in the database.
use seekserve.Common.{
  ℕ, ◌≡◌, refl, ap, is_some, Bool, true, false, not, ◌&&◌, ◌||◌, Option, none, some, List, [], ◌∷◌,
  if◌then◌else◌, arith,
}
use seekserve.Common.Bytes.{Bytes, bytes_eq, bytes_eq_iff}
use seekserve.Types.{TorrentId}
use seekserve.Cache.{
  Cache, TorrentRow, remove_torrent_uri, list_torrent_uris, delete_torrent, delete_uri,
}
use seekserve.Session.{Libtorrent, Session}
use seekserve.Engine.State.{Config}
use seekserve.Engine.Restore.{
  restore_one, restore, make_engine, by_load, restore_one-by_load, restore_one-save_path,
}

-- The URI that a table holds for a torrent.
unfoldable pub uri_of : TorrentId → List TorrentRow → Option Bytes
uri_of id [] = none
uri_of id (t ∷ ts) = if bytes_eq t.torrent_id id then some t.uri else uri_of id ts

uri_of-delete_torrent :
    (id j : TorrentId) (rows : List TorrentRow)
    → uri_of id (delete_torrent j rows) ≡ (if bytes_eq j id then none else uri_of id rows)
unfolding uri_of delete_torrent
uri_of-delete_torrent id j [] = ground arith
uri_of-delete_torrent id j (t ∷ ts) = ground (
  arith,
  bytes_eq_iff t.torrent_id id,
  bytes_eq_iff t.torrent_id j,
  bytes_eq_iff j id,
  uri_of-delete_torrent id j ts,
)

-- Whether a saved URI of the torrent is refused.
unfoldable pub fails : Libtorrent → Bytes → TorrentId → List (TorrentId × Bytes) → Bool
unfolding bytes_eq
fails lt save_path id [] = false
fails lt save_path id ((j, uri) ∷ saved) =
    (bytes_eq j id && not (is_some (lt.loads uri save_path))) || fails lt save_path id saved

abbrev pub Deletes : Cache → Type 0
Deletes cache = (cache.is_open ≡ true) × (cache.prepares delete_uri ≡ true)

restore_one-Deletes :
    (lt : Libtorrent) (id : TorrentId) (uri : Bytes) (session : Session) (cache : Cache)
    → Deletes cache
    → Deletes (restore_one lt id uri (session, cache)).1
unfolding remove_torrent_uri
restore_one-Deletes lt id uri session cache d =
    rw (restore_one-by_load lt id uri session cache) (kept (lt.loads uri session.save_path))
  where
    kept : (m : Option (TorrentId × ℕ)) → Deletes (by_load id session cache m).1
    kept none = ground (arith, d)
    kept (some (k, handle)) = d

restore_one-uri_of :
    (lt : Libtorrent) (id j : TorrentId) (uri : Bytes) (session : Session) (cache : Cache)
    → Deletes cache
    → uri_of id (restore_one lt j uri (session, cache)).1.torrents ≡ (
        if bytes_eq j id && not (is_some (lt.loads uri session.save_path))
        then none
        else uri_of id cache.torrents)
unfolding remove_torrent_uri
restore_one-uri_of lt id j uri session cache d =
    rw (restore_one-by_load lt j uri session cache) (kept (lt.loads uri session.save_path))
  where
    kept :
        (m : Option (TorrentId × ℕ))
        → uri_of id (by_load j session cache m).1.torrents
          ≡ (if bytes_eq j id && not (is_some m) then none else uri_of id cache.torrents)
    kept none = ground (arith, d, uri_of-delete_torrent id j cache.torrents)
    kept (some (k, handle)) = ground arith

restore-uri_of :
    (lt : Libtorrent) (id : TorrentId) (saved : List (TorrentId × Bytes)) (session : Session)
    (cache : Cache)
    → Deletes cache
    → uri_of id (restore lt saved (session, cache)).1.torrents
      ≡ (if fails lt session.save_path id saved then none else uri_of id cache.torrents)
unfolding restore fails
restore-uri_of lt id [] session cache d = refl
restore-uri_of lt id ((j, uri) ∷ saved) session cache d =
    let held : Session × Cache = restore_one lt j uri (session, cache) in
    ground (
      arith,
      restore-uri_of lt id saved held.0 held.1 (restore_one-Deletes lt j uri session cache d),
      ap (λ (p : Bytes). fails lt p id saved) (restore_one-save_path lt j uri session cache),
      restore_one-uri_of lt id j uri session cache d,
    )

-- The constructor takes out of the database exactly the torrents that have a saved URI which libtorrent
-- refuses: every other torrent keeps its URI. The database is open and takes the DELETE.
pub uri_of-make_engine :
    (lt : Libtorrent) (by_added : List TorrentRow → List TorrentRow) (config : Config)
    (save_path : Bytes) (cache : Cache) (id : TorrentId)
    → Deletes cache
    → uri_of id (make_engine lt by_added config save_path cache).cache.torrents ≡ (
        if fails lt save_path id (list_torrent_uris by_added cache)
        then none
        else uri_of id cache.torrents)
unfolding make_engine
uri_of-make_engine lt by_added config save_path cache id d =
    restore-uri_of lt id (list_torrent_uris by_added cache)
      (record { save_path = save_path; handles = [] }) cache d
