-- ===== src/Capi.antt =====
-- seekserve-capi/src/seekserve_c.cpp and include/seekserve_c.h: the C functions over an engine. A null
-- pointer is `none`, a C string is its bytes before the NUL, and whether `new (std::nothrow)` gives memory
-- for a number of bytes is a parameter. The text of a JSON document is nlohmann's, a parameter too.
pub mod Settings
pub mod Unread
pub mod Create
pub mod Calls
pub mod Copies
mod Tests
use seekserve.Common.{
  ℕ, suc, ◌+◌, ◌-◌, min, Bool, true, false, Option, none, some, List, [], ◌∷◌, ◌++◌, if◌then◌else◌,
  ltb, length, take,
}
use seekserve.Common.Int.{ℤ, pos, negsuc}
use seekserve.Common.Bytes.{Bytes}
use seekserve.Types.{
  TorrentId, FileIndex, FileInfo, Errc, Result, ok, err, success, torrent_not_found, file_not_found,
  metadata_not_ready, piece_not_available, timeout_waiting_for_piece, range_not_satisfiable,
  server_already_running, session_not_started, invalid_argument, io_error, cancelled,
}
use seekserve.Http.Registry.{Network}
use seekserve.Cache.{TorrentRow}
use seekserve.Catalog.{list_files}
use seekserve.Session.{Libtorrent}
use seekserve.Common.Assoc.{Assoc}
use seekserve.Api.State.{TorrentStatus, Value}
use seekserve.Engine.State.{Engine}
use seekserve.Engine.Torrents.{
  add_torrent, remove_torrent, pause_torrent, resume_torrent, list_torrents,
}
use seekserve.Engine.Selection.{select_file}
use seekserve.Engine.Servers.{get_stream_url, start_server, stop_server}
use seekserve.Engine.Control.{get_status_json}

-- SS_OK and SS_ERR_...
abbrev pub ss_ok : ℤ
ss_ok = pos 0

abbrev pub ss_err_invalid_arg : ℤ
ss_err_invalid_arg = negsuc 0

abbrev pub ss_err_not_found : ℤ
ss_err_not_found = negsuc 1

abbrev pub ss_err_metadata_pending : ℤ
ss_err_metadata_pending = negsuc 2

abbrev pub ss_err_timeout : ℤ
ss_err_timeout = negsuc 3

abbrev pub ss_err_io : ℤ
ss_err_io = negsuc 4

abbrev pub ss_err_already_running : ℤ
ss_err_already_running = negsuc 5

abbrev pub ss_err_cancelled : ℤ
ss_err_cancelled = negsuc 6

-- The three codes without a case of their own fall to the default.
unfoldable pub map_error : Errc → ℤ
map_error success = ss_ok
map_error invalid_argument = ss_err_invalid_arg
map_error torrent_not_found = ss_err_not_found
map_error file_not_found = ss_err_not_found
map_error metadata_not_ready = ss_err_metadata_pending
map_error timeout_waiting_for_piece = ss_err_timeout
map_error io_error = ss_err_io
map_error server_already_running = ss_err_already_running
map_error cancelled = ss_err_cancelled
map_error piece_not_available = ss_err_io
map_error range_not_satisfiable = ss_err_io
map_error session_not_started = ss_err_io

-- result ? SS_OK : map_error(result.error())
abbrev pub code_of {ℓ} : {A : Type ℓ} → Result A → ℤ
code_of (ok a) = ss_ok
code_of (err e) = map_error e

-- The bytes of the buffer, the NUL among them.
unfoldable pub alloc_string : (ℕ → Bool) → Bytes → Option Bytes
alloc_string has_memory s = if has_memory (length s + 1) then some (s ++ (0 ∷ [])) else none

-- The engine behind a call, the code, and what was written through an output pointer.
pub record Returned {ℓ} (A : Type ℓ) : Type ℓ where
  pub engine : Engine
  pub code : ℤ
  pub written : Option A

abbrev pub refused {ℓ} : {A : Type ℓ} → Engine → ℤ → Returned A
refused en code = record { engine = en; code = code; written = none }

-- *out = alloc_string(s); the code says whether there was memory.
abbrev pub written_string : Engine → Option Bytes → Returned Bytes
written_string en none = refused en ss_err_io
written_string en (some buf) = record { engine = en; code = ss_ok; written = some buf }

-- The bytes that are copied into a buffer of `n` bytes, with the NUL.
unfoldable pub copy_id : Bytes → ℕ → Bytes
copy_id id n = take (min (n - 1) (length id)) id ++ (0 ∷ [])

-- `out` is the length of the buffer, if there is one and its length is positive.
abbrev pub added : Option ℕ → Engine × Result TorrentId → Returned Bytes
added out (en, err e) = refused en (map_error e)
added none (en, ok id) = record { engine = en; code = ss_ok; written = none }
added (some n) (en, ok id) = record {
  engine = en;
  code = ss_ok;
  written = if ltb 0 n then some (copy_id id n) else none;
}

unfoldable pub ss_add_torrent : Libtorrent → ℕ → Option Bytes → Option ℕ → Engine → Returned Bytes
unfolding add_torrent copy_id map_error
ss_add_torrent lt now none out en = refused en ss_err_invalid_arg
ss_add_torrent lt now (some uri) out en = added out (add_torrent lt uri [] now en)

-- A call whose result holds no value.
abbrev pub finished : Engine × Result (Unit {0}) → Returned (Unit {0})
finished (en, result) = refused en (code_of result)

unfoldable pub ss_remove_torrent : Option TorrentId → Engine → Returned (Unit {0})
unfolding remove_torrent map_error
ss_remove_torrent none en = refused en ss_err_invalid_arg
ss_remove_torrent (some id) en = finished (remove_torrent id en)

unfoldable pub ss_pause_torrent : Libtorrent → Option TorrentId → Engine → Returned (Unit {0})
unfolding map_error
ss_pause_torrent lt none en = refused en ss_err_invalid_arg
ss_pause_torrent lt (some id) en = finished (pause_torrent lt id en)

unfoldable pub ss_resume_torrent : Libtorrent → Option TorrentId → Engine → Returned (Unit {0})
unfolding map_error
ss_resume_torrent lt none en = refused en ss_err_invalid_arg
ss_resume_torrent lt (some id) en = finished (resume_torrent lt id en)

unfoldable pub ss_select_file :
    Libtorrent → ℕ → Option TorrentId → FileIndex → Engine → Returned (Unit {0})
unfolding select_file map_error
ss_select_file lt now none fi en = refused en ss_err_invalid_arg
ss_select_file lt now (some id) fi en = finished (select_file lt now id fi en)

-- The functions that return a text; `out` is whether the output pointer is there, and `dump` prints the
-- JSON.
unfoldable pub ss_list_torrents :
    (ℕ → Bool)
    → (List TorrentId → Bytes)
    → (List TorrentRow → List TorrentRow)
    → Bool
    → Engine
    → Returned Bytes
unfolding list_torrents alloc_string
ss_list_torrents has_memory dump by_added false en = refused en ss_err_invalid_arg
ss_list_torrents has_memory dump by_added true en =
    written_string en (alloc_string has_memory (dump (list_torrents by_added en)))

abbrev pub listed :
    (ℕ → Bool) → (List FileInfo → Bytes) → Engine → Result (List FileInfo) → Returned Bytes
listed has_memory dump en (err e) = refused en (map_error e)
listed has_memory dump en (ok files) = written_string en (alloc_string has_memory (dump files))

unfoldable pub ss_list_files :
    (ℕ → Bool) → (List FileInfo → Bytes) → Option TorrentId → Bool → Engine → Returned Bytes
unfolding list_files alloc_string map_error
ss_list_files has_memory dump none out en = refused en ss_err_invalid_arg
ss_list_files has_memory dump (some id) false en = refused en ss_err_invalid_arg
ss_list_files has_memory dump (some id) true en =
    listed has_memory dump en (list_files id en.catalog)

abbrev pub url_written : (ℕ → Bool) → Engine → Result Bytes → Returned Bytes
url_written has_memory en (err e) = refused en (map_error e)
url_written has_memory en (ok url) = written_string en (alloc_string has_memory url)

unfoldable pub ss_get_stream_url :
    (ℕ → Bool) → Option TorrentId → FileIndex → Bool → Engine → Returned Bytes
unfolding get_stream_url alloc_string map_error
ss_get_stream_url has_memory none fi out en = refused en ss_err_invalid_arg
ss_get_stream_url has_memory (some id) fi false en = refused en ss_err_invalid_arg
ss_get_stream_url has_memory (some id) fi true en =
    url_written has_memory en (get_stream_url id fi en)

unfoldable pub ss_get_status :
    Libtorrent
    → (ℕ → Bool)
    → (Assoc Value → Bytes)
    → (ℕ → TorrentStatus)
    → Option TorrentId
    → Bool
    → Engine
    → Returned Bytes
unfolding get_status_json alloc_string
ss_get_status lt has_memory dump status none out en = refused en ss_err_invalid_arg
ss_get_status lt has_memory dump status (some id) false en = refused en ss_err_invalid_arg
ss_get_status lt has_memory dump status (some id) true en =
    written_string en (alloc_string has_memory (dump (get_status_json lt status id en)))

abbrev pub started : Bool → Engine × Result ℕ → Returned ℕ
started out (en, err e) = refused en (map_error e)
started out (en, ok port) = record {
  engine = en;
  code = ss_ok;
  written = if out then some port else none;
}

unfoldable pub ss_start_server : Network → Result ℕ → Bool → Engine → Returned ℕ
unfolding start_server map_error
ss_start_server net api out en = started out (start_server net api en)

unfoldable pub ss_stop_server : Engine → Returned (Unit {0})
unfolding stop_server
ss_stop_server en = refused (stop_server en) ss_ok

-- The callback that is set, if it is not null, and the code.
unfoldable pub ss_set_event_callback : Option ℕ → Option ℕ × ℤ
ss_set_event_callback callback = (callback, ss_ok)

-- What an event calls: the callback with its copy of the text, which the callee frees.
unfoldable pub deliver : (ℕ → Bool) → Option ℕ → Bytes → Option (ℕ × Bytes)
unfolding alloc_string
deliver has_memory none event_json = none
deliver has_memory (some callback) event_json = elim (alloc_string has_memory event_json) [
  | none ↦ none
  | some buf ↦ some (callback, buf)
]
