-- ===== src/Session/Adding.antt =====
-- session_manager.cpp: `add_torrent` and `torrent_id_from_handle` with libtorrent's calls one by one. They
-- are parameters.
use seekserve.Common.{ℕ, Option, none, some, List, ◌++◌, if◌then◌else◌, take}
use seekserve.Common.Bytes.{Bytes, codes, bytes_eq, is_empty}
use seekserve.Common.Assoc.{insert}
use seekserve.Types.{TorrentId, Result, ok, err, invalid_argument}
use seekserve.Session.{Session}

-- lt::add_torrent_params: `content` is what the link or the file says of the torrent.
pub record AddTorrentParams : Type 0 where
  pub content : ℕ
  pub save_path : Bytes
  pub trackers : List Bytes

-- lt::info_hash_t
pub record InfoHash : Type 0 where
  pub v1 : Bytes
  pub v2 : Option Bytes

-- libtorrent's functions; `none` is an error code, and for session::add_torrent an exception.
pub record Loader : Type 0 where
  pub parse_magnet_uri : Bytes → Option AddTorrentParams
  pub load_torrent_file : Bytes → Option AddTorrentParams
  pub adds : AddTorrentParams → Option ℕ
  pub info_hashes : ℕ → InfoHash
  pub to_hex : Bytes → Bytes

unfoldable pub torrent_id_from_handle : Loader → ℕ → TorrentId
torrent_id_from_handle lt h = elim (lt.info_hashes h).v2 [
  | some v2 ↦ lt.to_hex v2
  | none ↦ lt.to_hex (lt.info_hashes h).v1
]

abbrev pub params_of : Loader → Bytes → Option AddTorrentParams
params_of lt uri =
    if bytes_eq (take 7 uri) (codes "magnet:")
    then lt.parse_magnet_uri uri
    else lt.load_torrent_file uri

abbrev pub default_to : Bytes → Bytes → Bytes
default_to save_path given = if is_empty given then save_path else given

-- Behind session::add_torrent; `none` is the exception, which goes on to the caller.
abbrev pub with_handle : Loader → Session → Option ℕ → Option (Session × Result TorrentId)
with_handle lt session none = none
with_handle lt session (some h) =
    let id = torrent_id_from_handle lt h in
    some (record session { handles = insert id h session.handles }, ok id)

-- With the configuration's `extra_trackers`.
unfoldable pub add :
    Loader → List Bytes → Bytes → Bytes → Session → Option (Session × Result TorrentId)
unfolding torrent_id_from_handle insert
add lt extra_trackers uri save_path session = elim (params_of lt uri) [
  | none ↦ some (session, err invalid_argument)
  | some atp ↦ with_handle lt session (
      lt.adds (record atp {
        save_path = default_to session.save_path save_path;
        trackers = atp.trackers ++ extra_trackers;
      }))
]
