-- ===== src/Session.antt =====
-- seekserve-core/src/session_manager.cpp: the torrents of `TorrentSessionManager`. libtorrent's session
-- is a parameter: which torrent and handle an URI with a save path gives, and which handles are valid.
pub mod Adding
pub mod Ids
mod Tests
use seekserve.Common.{ℕ, Bool, Option, none, some, List, map, if◌then◌else◌, is_some}
use seekserve.Common.Bytes.{Bytes, is_empty}
use seekserve.Common.Assoc.{Assoc, lookup, insert, erase}
use seekserve.Types.{TorrentId, Result, ok, err, invalid_argument, torrent_not_found}

-- `loads` is parse_magnet_uri or load_torrent_file, and session::add_torrent behind it: the id and the
-- handle of the torrent, or `none` for an URI that is refused. `throws` is session::add_torrent that
-- throws for an URI that was read.
pub record Libtorrent : Type 0 where
  pub loads : Bytes → Bytes → Option (TorrentId × ℕ)
  pub is_valid : ℕ → Bool
  pub has_piece : ℕ → ℕ → Bool
  pub throws : Bytes → Bytes → Bool

-- A default-constructed handle is `none`.
pub record Session : Type 0 where
  pub save_path : Bytes
  pub handles : Assoc ℕ

-- Whether the call ends with an exception; `add_torrent` is a call that returns.
unfoldable pub add_throws : Libtorrent → Bytes → Bytes → Session → Bool
add_throws lt uri save_path session =
    lt.throws uri (if is_empty save_path then session.save_path else save_path)

unfoldable pub add_torrent : Libtorrent → Bytes → Bytes → Session → Session × Result TorrentId
unfolding insert
add_torrent lt uri save_path session =
    elim (lt.loads uri (if is_empty save_path then session.save_path else save_path)) [
      | none ↦ (session, err invalid_argument)
      | some (id, handle) ↦ (record session { handles = insert id handle session.handles }, ok id)
    ]

unfoldable pub remove_torrent : TorrentId → Session → Session × Result (Unit {0})
unfolding lookup erase
remove_torrent id session = elim (lookup id session.handles) [
  | none ↦ (session, err torrent_not_found)
  | some handle ↦ (record session { handles = erase id session.handles }, ok tt)
]

unfoldable pub get_handle : TorrentId → Session → Option ℕ
unfolding lookup
get_handle id session = lookup id session.handles

unfoldable pub has_torrent : TorrentId → Session → Bool
unfolding lookup
has_torrent id session = is_some (lookup id session.handles)

abbrev pub id_of : TorrentId × ℕ → TorrentId
id_of (id, handle) = id

unfoldable pub list_torrents : Session → List TorrentId
list_torrents session = map id_of session.handles
