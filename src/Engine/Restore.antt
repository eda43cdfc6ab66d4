-- ===== src/Engine/Restore.antt =====
-- engine.cpp: the constructor, which restores the torrents whose URIs the cache holds.
use seekserve.Common.{
  ℕ, ◌≡◌, refl, ap, ◌∙◌, ◌++◌, Bool, true, false, ◌||◌, Option, none, some, List, [], ◌∷◌,
  if◌then◌else◌, arith,
}
use seekserve.Common.Bytes.{Bytes, bytes_eq, bytes_eq_refl, is_empty}
use seekserve.Common.Assoc.{insert, lookup-insert}
use seekserve.Types.{TorrentId, Result, ok, err, invalid_argument}
use seekserve.Cache.{Cache, TorrentRow, remove_torrent_uri, list_torrent_uris}
use seekserve.Session.{Libtorrent, Session, add_torrent, has_torrent}
use seekserve.Engine.State.{Config, Engine}

-- Behind one call of the session's `add_torrent`.
abbrev pub restored : TorrentId → Session × Result TorrentId → Cache → Session × Cache
restored id (session, err e) cache = (session, remove_torrent_uri id cache)
restored id (session, ok added) cache = (session, cache)

unfoldable pub restore_one : Libtorrent → TorrentId → Bytes → Session × Cache → Session × Cache
unfolding add_torrent remove_torrent_uri
restore_one lt id uri (session, cache) =
    restored id (add_torrent lt uri session.save_path session) cache

-- The loop over the saved torrents.
unfoldable pub restore : Libtorrent → List (TorrentId × Bytes) → Session × Cache → Session × Cache
unfolding restore_one
restore lt [] held = held
restore lt ((id, uri) ∷ saved) held = restore lt saved (restore_one lt id uri held)

-- The engine that is constructed on the cache's database.
unfoldable pub make_engine :
    Libtorrent → (List TorrentRow → List TorrentRow) → Config → Bytes → Cache → Engine
unfolding restore list_torrent_uris
make_engine lt by_added config save_path cache =
    let held =
      restore lt (list_torrent_uris by_added cache)
        (record { save_path = save_path; handles = [] }, cache) in
    record {
      config = config;
      session = held.0;
      catalog = [];
      cache = held.1;
      http_server = none;
      states = [];
      removed_ids = [];
      server_running = false;
      events = [];
      fresh = 0;
      cancelled = [];
    }

-- The save path of the session, which every restored torrent is given.
abbrev pub loads_at : Libtorrent → Bytes → Bytes → Option (TorrentId × ℕ)
loads_at lt save_path uri = lt.loads uri save_path

same_path : (b : Bool) (p : Bytes) → (if b then p else p) ≡ p
same_path true p = refl
same_path false p = refl

-- The same, by what libtorrent makes of the URI.
abbrev pub by_load : TorrentId → Session → Cache → Option (TorrentId × ℕ) → Session × Cache
by_load id session cache none = (session, remove_torrent_uri id cache)
by_load id session cache (some (j, handle)) =
    (record session { handles = insert j handle session.handles }, cache)

pub restore_one-by_load :
    (lt : Libtorrent) (id : TorrentId) (uri : Bytes) (session : Session) (cache : Cache)
    → restore_one lt id uri (session, cache)
      ≡ by_load id session cache (lt.loads uri session.save_path)
unfolding restore_one add_torrent
restore_one-by_load lt id uri session cache =
    rw (same_path (is_empty session.save_path) session.save_path, restore_one, add_torrent)
      (loaded (lt.loads uri session.save_path))
  where
    loaded :
        (m : Option (TorrentId × ℕ))
        → restored id
            (elim m [
              | none ↦ (session, err invalid_argument)
              | some (j, handle) ↦
                  (record session { handles = insert j handle session.handles }, ok j)
            ])
            cache
          ≡ by_load id session cache m
    loaded none = refl
    loaded (some (j, handle)) = refl

pub restore_one-save_path :
    (lt : Libtorrent) (id : TorrentId) (uri : Bytes) (session : Session) (cache : Cache)
    → (restore_one lt id uri (session, cache)).0.save_path ≡ session.save_path
restore_one-save_path lt id uri session cache =
    rw (restore_one-by_load lt id uri session cache) (kept (lt.loads uri session.save_path))
  where
    kept :
        (m : Option (TorrentId × ℕ)) → (by_load id session cache m).0.save_path ≡ session.save_path
    kept none = refl
    kept (some (j, handle)) = refl

has_torrent-insert :
    (j k : TorrentId) (handle : ℕ) (session : Session)
    → has_torrent j (record session { handles = insert k handle session.handles })
      ≡ (bytes_eq k j || has_torrent j session)
unfolding has_torrent
has_torrent-insert j k handle session = ground (arith, lookup-insert k j handle session.handles)

restore_one-keeps :
    (lt : Libtorrent) (id j : TorrentId) (uri : Bytes) (session : Session) (cache : Cache)
    → has_torrent j session ≡ true
    → has_torrent j (restore_one lt id uri (session, cache)).0 ≡ true
restore_one-keeps lt id j uri session cache h =
    rw (restore_one-by_load lt id uri session cache) (kept (lt.loads uri session.save_path))
  where
    kept : (m : Option (TorrentId × ℕ)) → has_torrent j (by_load id session cache m).0 ≡ true
    kept none = h
    kept (some (k, handle)) = ground (arith, has_torrent-insert j k handle session, h)

restore-keeps :
    (lt : Libtorrent) (j : TorrentId) (saved : List (TorrentId × Bytes)) (held : Session × Cache)
    → has_torrent j held.0 ≡ true
    → has_torrent j (restore lt saved held).0 ≡ true
unfolding restore
restore-keeps lt j [] held h = h
restore-keeps lt j ((id, uri) ∷ saved) (session, cache) h =
    restore-keeps lt j saved (restore_one lt id uri (session, cache))
      (restore_one-keeps lt id j uri session cache h)

restore_one-loads :
    (lt : Libtorrent) (id j : TorrentId) (uri : Bytes) (handle : ℕ) (session : Session)
    (cache : Cache)
    → lt.loads uri session.save_path ≡ some (j, handle)
    → has_torrent j (restore_one lt id uri (session, cache)).0 ≡ true
restore_one-loads lt id j uri handle session cache e =
    rw (restore_one-by_load lt id uri session cache, e)
      (ground (arith, has_torrent-insert j j handle session, bytes_eq_refl j))

-- A saved torrent that loads is in the session.
restore-loads :
    (lt : Libtorrent) (id j : TorrentId) (uri : Bytes) (handle : ℕ)
    (before after : List (TorrentId × Bytes)) (session : Session) (cache : Cache)
    → lt.loads uri session.save_path ≡ some (j, handle)
    → has_torrent j (restore lt (before ++ ((id, uri) ∷ after)) (session, cache)).0 ≡ true
unfolding restore
restore-loads lt id j uri handle [] after session cache e =
    restore-keeps lt j after (restore_one lt id uri (session, cache))
      (restore_one-loads lt id j uri handle session cache e)
restore-loads lt id j uri handle ((k, other) ∷ before) after session cache e =
    let held : Session × Cache = restore_one lt k other (session, cache) in
    restore-loads lt id j uri handle before after held.0 held.1
      (ap (lt.loads uri) (restore_one-save_path lt k other session cache) ∙ e)

-- The constructor puts every saved torrent whose URI libtorrent loads into the session.
pub has_torrent-make_engine :
    (lt : Libtorrent) (by_added : List TorrentRow → List TorrentRow) (config : Config)
    (save_path : Bytes) (cache : Cache) (id j : TorrentId) (uri : Bytes) (handle : ℕ)
    (before after : List (TorrentId × Bytes))
    → list_torrent_uris by_added cache ≡ before ++ ((id, uri) ∷ after)
    → lt.loads uri save_path ≡ some (j, handle)
    → has_torrent j (make_engine lt by_added config save_path cache).session ≡ true
unfolding make_engine
has_torrent-make_engine lt by_added config save_path cache id j uri handle before after saved
      loads =
    rw saved (
      restore-loads lt id j uri handle before after (record { save_path = save_path; handles = [] })
        cache loads)
