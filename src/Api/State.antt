-- ===== src/Api/State.antt =====
-- control_api_server.hpp: what `ControlApiServer` works on. The session, the catalog, the range server and
-- the cache are the engine's own. An answer holds the values that the body's JSON is made of; the text of
-- the JSON is nlohmann's.
use seekserve.Common.Int.{ℤ}
use seekserve.Common.{[], ◌∷◌, true, ◌&&◌, if◌then◌else◌, ℕ, Bool, false, Option, none, List}
use seekserve.Common.Bytes.{Bytes}
use seekserve.Types.{TorrentId, FileIndex, FileInfo}
use seekserve.Availability.{Ratio}
use seekserve.Http.Registry.{Server}
use seekserve.Catalog.{Catalog}
use seekserve.Cache.{Cache, CacheEntry}
use seekserve.Session.{Session}

pub record Control : Type 0 where
  pub sessions : Session
  pub catalog : Catalog
  pub range_server : Server
  pub cache : Cache
  pub auth_token : Bytes

pub data Verb : Type 0 where
  get post delete options other : Verb

pub record ApiRequest : Type 0 where
  pub method : Verb
  pub target : Bytes
  pub authorization : Option Bytes
  pub body : Bytes

-- A member of a JSON object that is read as a text: absent, a text, or another value.
pub data Field : Type 0 where
  absent : Field
  text : Bytes → Field
  no_text : Field

-- A JSON value that was parsed, as far as it is read: the members of an object.
pub data Json : Type 0 where
  object : (Bytes → Field) → Json
  no_object : Json

-- lt::torrent_status, as far as it is reported.
pub record TorrentStatus : Type 0 where
  pub name : Bytes
  pub progress : Ratio
  pub download_rate : ℕ
  pub upload_rate : ℕ
  pub num_peers : ℕ
  pub num_seeds : ℕ
  pub total_download : ℕ
  pub total_upload : ℕ
  pub state : ℕ
  pub paused : Bool

pub data StatusCode : Type 0 where
  ok_200 created bad_request forbidden not_found payload_too_large : StatusCode
  internal_server_error : StatusCode

pub record ListedTorrent : Type 0 where
  pub torrent_id : TorrentId
  pub has_metadata : Bool
  pub status : Option TorrentStatus

-- The value of a member of a JSON object that is written.
pub data Value : Type 0 where
  text_value : Bytes → Value
  number : ℕ → Value
  integer : ℤ → Value
  fraction : Ratio → Value
  flag : Bool → Value
  null : Value

abbrev pub Member : Type 0
Member = Bytes × Value

pub data Body : Type 0 where
  error_body : Bytes → Body
  added_body : TorrentId → Body
  torrents_body : List ListedTorrent → Body
  status_body : Bytes → Body
  cache_body : List CacheEntry → Body
  files_body : List FileInfo → Option FileIndex → Body
  selected_body : FileIndex → Body
  report_body : List Member → Body
  stream_url_body : Bytes → FileIndex → Body

-- What comes of a request: a response, the response to a preflight, nothing (the connection closes), or an
-- exception that leaves the thread, which ends the process.
pub data Answer : Type 0 where
  replies : StatusCode → Body → Answer
  no_content : Answer
  closes : Answer
  terminates : Answer

-- A call of a torrent's handle.
pub data HandleCall : Type 0 where
  pauses resumes : ℕ → HandleCall
  prioritizes : ℕ → List ℕ → HandleCall

pub record Outcome : Type 0 where
  pub control : Control
  pub answer : Answer
  pub call : Option HandleCall
  pub shuts_down : Bool

-- What libtorrent, nlohmann's parser and SQLite's order give, and which texts nlohmann's dump takes for
-- UTF-8.
pub record Outside : Type 0 where
  pub parse : Bytes → Option Json
  pub status : ℕ → TorrentStatus
  pub by_access_desc : List CacheEntry → List CacheEntry
  pub is_utf8 : Bytes → Bool

-- A body whose texts are literals of the program, error messages or hexadecimal ids, which dump takes.
abbrev pub send_json : Control → StatusCode → Body → Outcome
send_json c status body = record {
  control = c;
  answer = replies status body;
  call = none;
  shuts_down = false;
}

abbrev pub send_error : Control → StatusCode → Bytes → Outcome
send_error c status message = send_json c status (error_body message)

abbrev pub ends : Control → Answer → Outcome
ends c answer = record { control = c; answer = answer; call = none; shuts_down = false }

unfoldable pub all_utf8 : (Bytes → Bool) → List Bytes → Bool
all_utf8 is_utf8 [] = true
all_utf8 is_utf8 (s ∷ texts) = is_utf8 s && all_utf8 is_utf8 texts

-- A body with texts from outside: dump throws when one of them is not UTF-8.
unfoldable pub send_texts : Outside → Control → StatusCode → List Bytes → Body → Outcome
unfolding all_utf8
send_texts outside c status texts body =
    if all_utf8 outside.is_utf8 texts then send_json c status body else ends c terminates
