-- ===== src/Api/Torrent.antt =====
-- control_api_server.cpp: `handle_connection` behind the match of /api/torrents/{id}/*, one function for
-- each route.
use seekserve.Common.{map, [], ◌∷◌, ℕ, false, Option, none, some, List, if◌then◌else◌}
use seekserve.Common.Bytes.{Bytes, codes, bytes_eq, is_empty}
use seekserve.Common.Decimal.{stoi}
use seekserve.Types.{FileInfo, TorrentId, FileIndex, Result, ok, err, message}
use seekserve.Http.Url.{stream_url}
use seekserve.Catalog.{Catalog, list_files, selected_file, has_metadata, select_file}
use seekserve.Cache.{is_offline_ready}
use seekserve.Session.{Libtorrent, Session, get_handle, remove_torrent}
use seekserve.Api.State.{
  TorrentStatus, Value, Member, text_value, number, integer, fraction, flag, null, send_texts,
  Control, Verb, get, post, delete, options, other, Outside, Outcome, files_body, selected_body,
  status_body, report_body, stream_url_body, ok_200, bad_request, not_found, internal_server_error,
  replies, HandleCall, pauses, resumes, prioritizes, send_json, send_error,
}
use seekserve.Api.Paths.{match_select}

-- get_handle, and is_valid of it
abbrev pub handle_of : Libtorrent → TorrentId → Control → Option ℕ
handle_of lt id c = elim (get_handle id c.sessions) [
  | none ↦ none
  | some handle ↦ if lt.is_valid handle then some handle else none
]

abbrev pub invalid_handle : Control → Outcome
invalid_handle c = send_error c internal_server_error (codes "Invalid torrent handle")

abbrev pub removed : Control → Session × Result (Unit {0}) → Outcome
removed c (sessions, err e) =
    send_error (record c { sessions = sessions }) internal_server_error (message e)
removed c (sessions, ok u) =
    send_json (record c { sessions = sessions }) ok_200 (status_body (codes "removed"))

-- DELETE /api/torrents/{id}
unfoldable pub delete_torrent : TorrentId → Control → Outcome
unfolding remove_torrent message
delete_torrent id c = removed c (remove_torrent id c.sessions)

abbrev pub path_of : FileInfo → Bytes
path_of f = f.path

-- GET /api/torrents/{id}/files
unfoldable pub get_files : Outside → TorrentId → Control → Outcome
unfolding list_files selected_file message send_texts
get_files outside id c = elim (list_files id c.catalog) [
  | err e ↦ send_error c bad_request (message e)
  | ok files ↦
      send_texts outside c ok_200 (map path_of files)
        (files_body files (selected_file id c.catalog))
]

abbrev pub selected : ℕ → FileIndex → Control → Catalog × Result (List ℕ) → Outcome
selected handle fi c (catalog, err e) =
    send_error (record c { catalog = catalog }) bad_request (message e)
selected handle fi c (catalog, ok priorities) = record {
  control = record c { catalog = catalog };
  answer = replies ok_200 (selected_body fi);
  call = some (prioritizes handle priorities);
  shuts_down = false;
}

abbrev pub select_index : Libtorrent → TorrentId → Control → Option FileIndex → Outcome
select_index lt id c none = send_error c bad_request (codes "Invalid file index")
select_index lt id c (some fi) = elim (handle_of lt id c) [
  | none ↦ invalid_handle c
  | some handle ↦ selected handle fi c (select_file id fi c.catalog)
]

-- POST /api/torrents/{id}/files/{fileId}/select
unfoldable pub post_select : Libtorrent → TorrentId → Bytes → Control → Outcome
unfolding get_handle select_file message
post_select lt id index c = select_index lt id c (stoi index)

-- POST /api/torrents/{id}/pause and /resume, which differ in the call and the word of the answer.
unfoldable pub post_handle : Libtorrent → (ℕ → HandleCall) → Bytes → TorrentId → Control → Outcome
unfolding get_handle
post_handle lt call word id c = elim (handle_of lt id c) [
  | none ↦ invalid_handle c
  | some handle ↦ record {
    control = c;
    answer = replies ok_200 (status_body word);
    call = some (call handle);
    shuts_down = false;
  }
]

abbrev pub selected_value : Option FileIndex → Value
selected_value none = null
selected_value (some fi) = integer fi

abbrev pub offline_members : TorrentId → Control → Option FileIndex → List Member
offline_members id c none = []
offline_members id c (some fi) = (codes "offline_ready", flag (is_offline_ready id fi c.cache)) ∷ []

-- status_json
abbrev pub status_members : TorrentId → TorrentStatus → Option FileIndex → Control → List Member
status_members id st selected c =
    (codes "torrent_id", text_value id)
    ∷ (codes "name", text_value st.name)
    ∷ (codes "progress", fraction st.progress)
    ∷ (codes "download_rate", number st.download_rate)
    ∷ (codes "upload_rate", number st.upload_rate)
    ∷ (codes "num_peers", number st.num_peers)
    ∷ (codes "num_seeds", number st.num_seeds)
    ∷ (codes "total_download", number st.total_download)
    ∷ (codes "total_upload", number st.total_upload)
    ∷ (codes "state", number st.state)
    ∷ (codes "paused", flag st.paused)
    ∷ (codes "has_metadata", flag (has_metadata id c.catalog))
    ∷ (codes "selected_file", selected_value selected)
    ∷ offline_members id c selected

-- GET /api/torrents/{id}/status
unfoldable pub get_status : Libtorrent → Outside → TorrentId → Control → Outcome
unfolding get_handle selected_file has_metadata is_offline_ready send_texts
get_status lt outside id c = elim (handle_of lt id c) [
  | none ↦ invalid_handle c
  | some handle ↦
      let st = outside.status handle in
      let selected = selected_file id c.catalog in
      send_texts outside c ok_200 (st.name ∷ []) (report_body (status_members id st selected c))
]

-- GET /api/torrents/{id}/stream-url
unfoldable pub get_stream_url : Outside → TorrentId → Control → Outcome
unfolding selected_file stream_url send_texts
get_stream_url outside id c = elim (selected_file id c.catalog) [
  | none ↦ send_error c bad_request (codes "No file selected for streaming")
  | some fi ↦
      let sv = c.range_server in
      let url = stream_url sv.bind_address sv.port id fi sv.auth_token in
      send_texts outside c ok_200 (url ∷ []) (stream_url_body url fi)
]

abbrev pub post_match : Libtorrent → TorrentId → Bytes → Control → Option Bytes → Outcome
post_match lt id sub_path c (some index) = post_select lt id index c
post_match lt id sub_path c none =
    if bytes_eq sub_path (codes "/pause")
    then post_handle lt pauses (codes "paused") id c
    else if bytes_eq sub_path (codes "/resume")
    then post_handle lt resumes (codes "resumed") id c
    else send_error c not_found (codes "Not found")

-- POST on a path below a torrent
unfoldable pub post_torrent_path : Libtorrent → TorrentId → Bytes → Control → Outcome
unfolding match_select post_select post_handle
post_torrent_path lt id sub_path c = post_match lt id sub_path c (match_select sub_path)

-- GET on a path below a torrent
unfoldable pub get_torrent_path : Libtorrent → Outside → TorrentId → Bytes → Control → Outcome
unfolding get_files get_status get_stream_url
get_torrent_path lt outside id sub_path c =
    if bytes_eq sub_path (codes "/files")
    then get_files outside id c
    else if bytes_eq sub_path (codes "/status")
    then get_status lt outside id c
    else if bytes_eq sub_path (codes "/stream-url")
    then get_stream_url outside id c
    else send_error c not_found (codes "Not found")

-- The routes below a torrent that the session has.
unfoldable pub route_torrent : Libtorrent → Outside → Verb → TorrentId → Bytes → Control → Outcome
unfolding delete_torrent get_torrent_path post_torrent_path
route_torrent lt outside delete id sub_path c =
    if is_empty sub_path then delete_torrent id c else send_error c not_found (codes "Not found")
route_torrent lt outside get id sub_path c = get_torrent_path lt outside id sub_path c
route_torrent lt outside post id sub_path c = post_torrent_path lt id sub_path c
route_torrent lt outside options id sub_path c = send_error c not_found (codes "Not found")
route_torrent lt outside other id sub_path c = send_error c not_found (codes "Not found")
