-- ===== src/Api/Uncaught.antt =====
-- The requests whose exception leaves the thread of the connection.
use seekserve.Common.{[], Bool, true, false, not, ◌&&◌, Option, none, some, ltb, length}
use seekserve.Common.Bytes.{Bytes, codes, bytes_eq, is_empty}
use seekserve.Session.{Libtorrent, Session, add_throws}
use seekserve.Api.State.{
  Control, ApiRequest, Field, absent, text, no_text, Json, object, no_object, Outside, Answer,
  replies, no_content, closes, terminates,
}
use seekserve.Api.Paths.{extract_path}
use seekserve.Api.Handler.{is_post, is_authorized, max_body_size}

-- What is read and done for an `uri` that is not empty: a `save_path` that is no text throws, and
-- session::add_torrent may.
abbrev pub is_fatal_path : Libtorrent → Bytes → Field → Session → Bool
is_fatal_path lt uri absent session = add_throws lt uri [] session
is_fatal_path lt uri (text save_path) session = add_throws lt uri save_path session
is_fatal_path lt uri no_text session = true

abbrev pub is_fatal_uri : Libtorrent → Field → Field → Session → Bool
is_fatal_uri lt absent save_path session = false
is_fatal_uri lt no_text save_path session = true
is_fatal_uri lt (text uri) save_path session =
    not (is_empty uri) && is_fatal_path lt uri save_path session

-- The parsed bodies of an add that throws: no object, an `uri` that is no text, or one that is not empty
-- and fatal.
abbrev pub is_fatal : Libtorrent → Option Json → Session → Bool
is_fatal lt none session = false
is_fatal lt (some no_object) session = true
is_fatal lt (some (object field)) session =
    is_fatal_uri lt (field (codes "uri")) (field (codes "save_path")) session

abbrev pub is_fatal_request : Libtorrent → Outside → ApiRequest → Control → Bool
is_fatal_request lt outside req c =
    not (ltb max_body_size (length req.body))
    && is_authorized req c
    && is_post req.method
    && bytes_eq (extract_path req.target) (codes "/api/torrents")
    && is_fatal lt (outside.parse req.body) c.sessions

-- The end of the process, as a test.
abbrev pub is_end : Answer → Bool
is_end (replies status body) = false
is_end no_content = false
is_end closes = false
is_end terminates = true
