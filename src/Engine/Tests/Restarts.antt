-- ===== src/Engine/Tests/Restarts.antt =====
-- A database with two torrents, of which one does not load, and the control server of an engine.
use seekserve.Common.{
  ◌≡◌, refl, true, false, none, some, Option, List, [], ◌∷◌, ◌++◌, if◌then◌else◌,
}
use seekserve.Common.Int.{pos}
use seekserve.Common.Bytes.{Bytes, codes, bytes_eq}
use seekserve.Http.Auth.{extract_token, bearer, constant_time_compare}
use seekserve.Cache.{Cache, TorrentRow, list_torrent_uris}
use seekserve.Session.{Libtorrent, has_torrent}
use seekserve.Api.State.{Outside, Control, delete}
use seekserve.Api.Torrent.{get_status}
use seekserve.Api.Handler.{handle_connection, is_authorized}
use seekserve.Api.Effects.{request}
use seekserve.Engine.Restore.{make_engine}
use seekserve.Engine.Saved.{uri_of, fails, uri_of-make_engine}
use seekserve.Engine.Control.{
  control_of, answer_of, get_status_json, get_status-get_status_json, has_torrent-after_delete,
}
use seekserve.Engine.Tests.{ab, sv, en}

abbrev magnet : Bytes
magnet = codes "magnet:x"

-- Only the magnet link loads.
abbrev picky : Libtorrent
unfolding bytes_eq
picky = record {
  loads = λ uri save_path. if bytes_eq uri magnet then some (ab, 1) else none;
  is_valid = λ h. true;
  has_piece = λ h p. false;
  throws = λ uri save_path. false;
}

abbrev rows : List TorrentRow
rows =
    record { torrent_id = codes "cd"; uri = codes "bad"; added_at = 1 }
    ∷ record { torrent_id = ab; uri = magnet; added_at = 2 }
    ∷ []

abbrev saved : Cache
saved = record {
  is_open = true;
  max_storage_bytes = pos 0;
  prepares = λ s. true;
  entries = [];
  torrents = rows;
}

uri_of-make_engine_example :
    uri_of (codes "cd") (make_engine picky (λ r. r) en.config (codes "/tmp") saved).cache.torrents
    ≡ (if fails picky (codes "/tmp") (codes "cd") (list_torrent_uris (λ r. r) saved)
        then none
        else uri_of (codes "cd") rows)
uri_of-make_engine_example =
    uri_of-make_engine picky (λ r. r) en.config (codes "/tmp") saved (codes "cd") (refl, refl)

abbrev pub outside : Outside
outside = record {
  parse = λ body. none;
  status = λ h. record {
    name = ab;
    progress = record { part = 0; whole = 1 };
    download_rate = 0;
    upload_rate = 0;
    num_peers = 0;
    num_seeds = 0;
    total_download = 0;
    total_upload = 0;
    state = 3;
    paused = false;
  };
  by_access_desc = λ entries. entries;
  is_utf8 = λ s. true;
}

get_status-get_status_json_example :
    get_status picky outside ab (control_of en sv)
    ≡ answer_of outside (control_of en sv) (get_status_json picky outside.status ab en)
get_status-get_status_json_example = get_status-get_status_json picky outside ab en sv

abbrev c : Control
c = record {
  sessions = record { save_path = codes "/tmp"; handles = (ab, 1) ∷ [] };
  catalog = [];
  range_server = sv;
  cache = saved;
  auth_token = codes "t";
}

abbrev pub bearer_t : Option Bytes
bearer_t = some (codes "Bearer t")

authorized : is_authorized (request delete ab [] bearer_t) c ≡ true
unfolding is_authorized extract_token bearer constant_time_compare bytes_eq
authorized = refl

present : has_torrent ab c.sessions ≡ true
unfolding has_torrent bytes_eq
present = refl

listed :
    list_torrent_uris (λ r. r) c.cache ≡ ((codes "cd", codes "bad") ∷ []) ++ ((ab, magnet) ∷ [])
unfolding list_torrent_uris
listed = refl

loaded : picky.loads magnet (codes "/tmp") ≡ some (ab, 1)
unfolding picky
loaded = refl

has_torrent-after_delete_example :
    (has_torrent ab
        (handle_connection picky outside (some (request delete ab [] bearer_t)) c).control.sessions
      ≡ false)
    × (has_torrent ab
          (make_engine picky
            (λ r. r)
            en.config
            (codes "/tmp")
            (handle_connection picky outside
              (some (request delete ab [] bearer_t))
              c).control.cache).session
        ≡ true)
has_torrent-after_delete_example =
    has_torrent-after_delete picky outside ab bearer_t c (λ r. r) en.config (codes "/tmp") magnet 1
      ((codes "cd", codes "bad") ∷ []) [] ((refl, (refl, tt)), cc) authorized present listed loaded
