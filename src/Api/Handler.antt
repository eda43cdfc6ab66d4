-- ===== src/Api/Handler.antt =====
-- control_api_server.cpp: `handle_connection`, from the parsed request to the answer.
use seekserve.Common.{
  List, ◌∷◌, ℕ, ◌*◌, Bool, true, false, not, ◌&&◌, Option, none, some, [], map, if◌then◌else◌, ltb,
  length,
}
use seekserve.Common.Bytes.{Bytes, codes, bytes_eq, is_empty}
use seekserve.Types.{TorrentId, Result, ok, err, message}
use seekserve.Http.Auth.{Request, constant_time_compare, extract_token, other as other_method}
use seekserve.Catalog.{has_metadata}
use seekserve.Cache.{CacheEntry, list_cached}
use seekserve.Session.{
  Libtorrent, Session, add_throws, add_torrent, get_handle, has_torrent, list_torrents,
}
use seekserve.Api.State.{
  send_texts, Control, Verb, get, post, delete, options, other, ApiRequest, absent, text, no_text,
  Json, object, no_object, Outside, Outcome, ListedTorrent, added_body, torrents_body, status_body,
  cache_body, ok_200, created, bad_request, forbidden, not_found, payload_too_large, replies,
  no_content, closes, terminates, send_json, send_error, ends,
}
use seekserve.Api.Paths.{extract_path, match_torrent}
use seekserve.Api.Torrent.{handle_of, route_torrent}

-- body_json.value(name, ""): `none` is a type_error, for a value that is no object or a member that is
-- no text.
unfoldable pub json_value : Bytes → Json → Option Bytes
json_value name no_object = none
json_value name (object field) = elim (field name) [
  | absent ↦ some []
  | text s ↦ some s
  | no_text ↦ none
]

abbrev pub added : Control → Session × Result TorrentId → Outcome
added c (sessions, err e) = send_error (record c { sessions = sessions }) bad_request (message e)
added c (sessions, ok id) = send_json (record c { sessions = sessions }) created (added_body id)

-- The members of the body are read, and the torrent is added, outside of the try block.
unfoldable pub add_from : Libtorrent → Json → Control → Outcome
unfolding json_value add_throws add_torrent message
add_from lt body_json c = elim (json_value (codes "uri") body_json) [
  | none ↦ ends c terminates
  | some uri ↦
      if is_empty uri
      then send_error c bad_request (codes "Missing 'uri' field")
      else elim (json_value (codes "save_path") body_json) [
        | none ↦ ends c terminates
        | some save_path ↦
            if add_throws lt uri save_path c.sessions
            then ends c terminates
            else added c (add_torrent lt uri save_path c.sessions)
      ]
]

-- POST /api/torrents
unfoldable pub post_torrents : Libtorrent → Outside → Bytes → Control → Outcome
unfolding add_from
post_torrents lt outside body c = elim (outside.parse body) [
  | none ↦ send_error c bad_request (codes "Invalid JSON body")
  | some body_json ↦ add_from lt body_json c
]

unfoldable pub listed : Libtorrent → Outside → Control → TorrentId → ListedTorrent
unfolding get_handle has_metadata
listed lt outside c id = record {
  torrent_id = id;
  has_metadata = has_metadata id c.catalog;
  status = elim (handle_of lt id c) [ none ↦ none | some handle ↦ some (outside.status handle) ];
}

-- The texts of the answer: the names.
unfoldable pub names_of : List ListedTorrent → List Bytes
names_of [] = []
names_of (t ∷ ts) =
    let rest = names_of ts in elim t.status [ none ↦ rest | some st ↦ st.name ∷ rest ]

-- GET /api/torrents
unfoldable pub get_torrents : Libtorrent → Outside → Control → Outcome
unfolding list_torrents listed names_of send_texts
get_torrents lt outside c =
    let torrents = map (listed lt outside c) (list_torrents c.sessions) in
    send_texts outside c ok_200 (names_of torrents) (torrents_body torrents)

abbrev pub file_path_of : CacheEntry → Bytes
file_path_of e = e.file_path

-- GET /api/cache
unfoldable pub get_cache : Outside → Control → Outcome
unfolding list_cached send_texts
get_cache outside c =
    let entries = list_cached outside.by_access_desc c.cache in
    send_texts outside c ok_200 (map file_path_of entries) (cache_body entries)

-- POST /api/server/stop; the callback stops the server behind the answer.
abbrev pub post_stop : Control → Outcome
post_stop c = record {
  control = c;
  answer = replies ok_200 (status_body (codes "shutting_down"));
  call = none;
  shuts_down = true;
}

-- The paths that do not lie below a torrent.
unfoldable pub route_other : Outside → Verb → Bytes → Control → Outcome
unfolding get_cache
route_other outside post path c =
    if bytes_eq path (codes "/api/server/stop")
    then post_stop c
    else send_error c not_found (codes "Not found")
route_other outside get path c =
    if bytes_eq path (codes "/api/cache")
    then get_cache outside c
    else send_error c not_found (codes "Not found")
route_other outside delete path c = send_error c not_found (codes "Not found")
route_other outside options path c = send_error c not_found (codes "Not found")
route_other outside other path c = send_error c not_found (codes "Not found")

abbrev pub is_post : Verb → Bool
is_post post = true
is_post get = false
is_post delete = false
is_post options = false
is_post other = false

abbrev pub is_get : Verb → Bool
is_get get = true
is_get post = false
is_get delete = false
is_get options = false
is_get other = false

abbrev pub is_options : Verb → Bool
is_options options = true
is_options get = false
is_options post = false
is_options delete = false
is_options other = false

-- The id that the path names, against the session.
abbrev pub below_torrent : Libtorrent → Outside → Verb → TorrentId → Bytes → Control → Outcome
below_torrent lt outside method id sub_path c =
    if not (has_torrent id c.sessions)
    then send_error c not_found (codes "Torrent not found")
    else route_torrent lt outside method id sub_path c

abbrev pub route_match :
    Libtorrent → Outside → Verb → Bytes → Control → Option (Bytes × Bytes) → Outcome
route_match lt outside method path c none = route_other outside method path c
route_match lt outside method path c (some (id, sub_path)) =
    below_torrent lt outside method id sub_path c

-- The routes of an authorized request.
unfoldable pub route : Libtorrent → Outside → Verb → Bytes → Bytes → Control → Outcome
unfolding post_torrents get_torrents match_torrent has_torrent route_torrent route_other
route lt outside method path body c =
    if is_post method && bytes_eq path (codes "/api/torrents")
    then post_torrents lt outside body c
    else if is_get method && bytes_eq path (codes "/api/torrents")
    then get_torrents lt outside c
    else route_match lt outside method path c (match_torrent path)

-- What extract_token reads of a request.
abbrev pub as_request : ApiRequest → Request
as_request req = record {
  method = other_method;
  target = req.target;
  authorization = req.authorization;
  range = none;
  keep_alive = false;
}

unfoldable pub is_authorized : ApiRequest → Control → Bool
unfolding constant_time_compare extract_token
is_authorized req c =
    if is_empty c.auth_token
    then true
    else constant_time_compare (extract_token (as_request req)) c.auth_token

abbrev pub max_body_size : ℕ
max_body_size = 1024 * 1024

-- The tests in front of the routes, whose outcome is the last argument.
abbrev pub gates : Bool → Bool → Bool → Control → Outcome → Outcome
gates large preflight authorized c routed =
    if large
    then send_error c payload_too_large (codes "Request body too large")
    else if preflight
    then ends c no_content
    else if not authorized
    then send_error c forbidden (codes "Invalid or missing auth token")
    else routed

-- A request that was read.
unfoldable pub handle_request : Libtorrent → Outside → ApiRequest → Control → Outcome
unfolding is_authorized extract_path route
handle_request lt outside req c =
    gates (ltb max_body_size (length req.body)) (is_options req.method) (is_authorized req c) c
      (route lt outside req.method (extract_path req.target) req.body c)

-- `none` is a connection from which no request could be read.
unfoldable pub handle_connection : Libtorrent → Outside → Option ApiRequest → Control → Outcome
unfolding handle_request
handle_connection lt outside none c = ends c closes
handle_connection lt outside (some req) c = handle_request lt outside req c
