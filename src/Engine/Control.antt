-- ===== src/Engine/Control.antt =====
-- engine.cpp: the control server that `start_server` makes, on the engine's own session, catalog, cache
-- and range server, with `stop_server` as its shutdown callback; and `get_status_json`.
use seekserve.Common.{
  ℕ, ◌≡◌, refl, ap, ◌∙◌, true, false, is_some, Option-cases, inl, inr, Option, none, some, List, [],
  ◌∷◌, ◌++◌, if◌then◌else◌,
}
use seekserve.Common.Bytes.{Bytes, codes, bytes_eq}
use seekserve.Common.Assoc.{Assoc, lookup, insert, erase}
use seekserve.Types.{
  TorrentId, FileIndex, StreamMode, streaming_first, download_assist, download_first,
}
use seekserve.Http.Registry.{Server}
use seekserve.Http.Url.Laws.{IsId}
use seekserve.Catalog.{selected_file, has_metadata}
use seekserve.Cache.{TorrentRow, is_offline_ready, list_torrent_uris}
use seekserve.Session.{Libtorrent, get_handle, has_torrent}
use seekserve.Api.State.{
  Control, ApiRequest, Outside, Outcome, TorrentStatus, delete, ok_200, report_body, send_texts,
  Value, Member, text_value, number, integer, fraction, flag, null,
}
use seekserve.Api.Torrent.{status_members, invalid_handle, get_status}
use seekserve.Api.Handler.{handle_connection, is_authorized}
use seekserve.Api.Effects.{request, handle_connection-delete}
use seekserve.Engine.State.{Config, Engine, TorrentState, valid_handle}
use seekserve.Engine.Servers.{stop_server}
use seekserve.Engine.Restore.{make_engine, has_torrent-make_engine}

abbrev pub control_of : Engine → Server → Control
control_of en sv = record {
  sessions = en.session;
  catalog = en.catalog;
  range_server = sv;
  cache = en.cache;
  auth_token = en.config.auth_token;
}

abbrev pub with_control : Engine → Control → Engine
with_control en c = record en {
  session = c.sessions;
  catalog = c.catalog;
  cache = c.cache;
  http_server = some c.range_server;
}

-- A connection of the control server, which runs beside the range server.
unfoldable pub on_connection : Libtorrent → Outside → Option ApiRequest → Engine → Engine
unfolding handle_connection stop_server
on_connection lt outside req en = elim en.http_server [
  | none ↦ en
  | some sv ↦
      let o = handle_connection lt outside req (control_of en sv) in
      if o.shuts_down then stop_server (with_control en o.control) else with_control en o.control
]

-- status_json[key] = value, one after the other.
unfoldable pub assign_all : List Member → Assoc Value → Assoc Value
unfolding insert
assign_all [] json = json
assign_all ((key, value) ∷ members) json = assign_all members (insert key value json)

-- static_cast<int>
abbrev pub mode_number : StreamMode → ℕ
mode_number streaming_first = 0
mode_number download_assist = 1
mode_number download_first = 2

abbrev pub scheduler_members : Option TorrentState → List Member
scheduler_members none = []
scheduler_members (some state) =
    (codes "stream_mode", number (mode_number state.scheduler.mode))
    ∷ (codes "playhead_piece", integer state.scheduler.playhead_piece)
    ∷ (codes "active_deadlines", number state.scheduler.active_deadlines)
    ∷ []

abbrev pub selected_json : Option FileIndex → Value
selected_json none = null
selected_json (some fi) = integer fi

abbrev pub offline_ready_of : TorrentId → Engine → Option FileIndex → List Member
offline_ready_of id en none = []
offline_ready_of id en (some fi) =
    (codes "offline_ready", flag (is_offline_ready id fi en.cache)) ∷ []

abbrev pub handle_members : TorrentId → TorrentStatus → Option FileIndex → Engine → List Member
handle_members id st selected en =
    (codes "torrent_id", text_value id)
    ∷ (codes "name", text_value st.name)
    ∷ (codes "progress", fraction st.progress)
    ∷ (codes "download_rate", number st.download_rate)
    ∷ (codes "upload_rate", number st.upload_rate)
    ∷ (codes "num_peers", number st.num_peers)
    ∷ (codes "num_seeds", number st.num_seeds)
    ∷ (codes "total_download", number st.total_download)
    ∷ (codes "total_upload", number st.total_upload)
    ∷ (codes "state", number st.state)
    ∷ (codes "paused", flag st.paused)
    ∷ (codes "has_metadata", flag (has_metadata id en.catalog))
    ∷ (codes "selected_file", selected_json selected)
    ∷ []

-- The members of the JSON object.
unfoldable pub get_status_json : Libtorrent → (ℕ → TorrentStatus) → TorrentId → Engine → Assoc Value
unfolding selected_file has_metadata is_offline_ready lookup assign_all
get_status_json lt status id en = elim (valid_handle lt id en) [
  | none ↦ assign_all ((codes "error", text_value (codes "torrent not found")) ∷ []) []
  | some handle ↦
      let selected = selected_file id en.catalog in
      assign_all (scheduler_members (lookup id en.states)) (
        assign_all (offline_ready_of id en selected)
          (assign_all (handle_members id (status handle) selected en) []))
]

abbrev pub text_of : Option Value → List Bytes
text_of none = []
text_of (some (text_value s)) = s ∷ []
text_of (some (number n)) = []
text_of (some (integer n)) = []
text_of (some (fraction r)) = []
text_of (some (flag b)) = []
text_of (some null) = []

-- A status without the members of the scheduler.
abbrev pub without_scheduler : Assoc Value → Assoc Value
without_scheduler json =
    erase (codes "stream_mode")
      (erase (codes "playhead_piece") (erase (codes "active_deadlines") json))

-- The control server's answer to a status: an error for one, and else its members but the scheduler's.
abbrev pub answer_of : Outside → Control → Assoc Value → Outcome
answer_of outside c json = elim (lookup (codes "error") json) [
  | some e ↦ invalid_handle c
  | none ↦
      send_texts outside c ok_200 (text_of (lookup (codes "name") json))
        (report_body (without_scheduler json))
]

same_members :
    (outside : Outside) (id : TorrentId) (st : TorrentStatus) (en : Engine) (sv : Server)
    (selected : Option FileIndex) (state : Option TorrentState)
    → send_texts outside
        (control_of en sv)
        ok_200
        (st.name ∷ [])
        (report_body (status_members id st selected (control_of en sv)))
      ≡ answer_of outside (control_of en sv) (
          assign_all (scheduler_members state) (
            assign_all
              (offline_ready_of id en selected)
              (assign_all (handle_members id st selected en) [])))
unfolding assign_all bytes_eq lookup erase insert
same_members outside id st en sv none none = refl
same_members outside id st en sv none (some state) = refl
same_members outside id st en sv (some fi) none = refl
same_members outside id st en sv (some fi) (some state) = refl

-- The two reports of a torrent's status agree: the control server answers with the same members, of the same
-- names and values in the same order, that the engine's `get_status_json` holds, less the scheduler's three,
-- and with an error exactly when the engine reports one.
pub get_status-get_status_json :
    (lt : Libtorrent) (outside : Outside) (id : TorrentId) (en : Engine) (sv : Server)
    → get_status lt outside id (control_of en sv)
      ≡ answer_of outside (control_of en sv) (get_status_json lt outside.status id en)
unfolding get_status get_status_json assign_all bytes_eq lookup
get_status-get_status_json lt outside id en sv = elim (Option-cases (valid_handle lt id en)) [
  | inl e ↦ rw (e, get_status, get_status_json) refl
  | inr (handle, e) ↦
      rw (e, get_status, get_status_json)
        (same_members outside id (outside.status handle) en sv (selected_file id en.catalog)
          (lookup id en.states))
]

-- DELETE over the control server does not last: a torrent that it took out of the session is in the session
-- of the next engine that is constructed on the same database, if its URI is saved there and libtorrent
-- loads it. The id is hexadecimal and the request is authorized.
pub has_torrent-after_delete :
    (lt : Libtorrent) (outside : Outside) (id : TorrentId) (auth : Option Bytes) (c : Control)
    (by_added : List TorrentRow → List TorrentRow) (config : Config) (save_path uri : Bytes)
    (handle : ℕ) (before after : List (TorrentId × Bytes))
    → IsId id
    → is_authorized (request delete id [] auth) c ≡ true
    → has_torrent id c.sessions ≡ true
    → list_torrent_uris by_added c.cache ≡ before ++ ((id, uri) ∷ after)
    → lt.loads uri save_path ≡ some (id, handle)
    → (has_torrent id
          (handle_connection lt outside (some (request delete id [] auth)) c).control.sessions
        ≡ false)
      × (has_torrent id
            (make_engine lt by_added config save_path
              (handle_connection lt outside
                (some (request delete id [] auth))
                c).control.cache).session
          ≡ true)
unfolding has_torrent get_handle
has_torrent-after_delete lt outside id auth c by_added config save_path uri handle before after hid
      welcome present saved loads =
    let (answer, gone, same_catalog, same_cache, same_server) =
      handle_connection-delete lt outside id hid auth c welcome present in
    (
      ap (λ (h : Option ℕ). is_some h) gone,
      has_torrent-make_engine lt by_added config save_path _ id id uri handle before after
          (ap (list_torrent_uris by_added) same_cache ∙ saved) loads,
    )
