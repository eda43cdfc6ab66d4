-- ===== src/Http/Handler.antt =====
-- http_range_server.cpp: `handle_connection`, from the parsed request to the answer. The answer is a
-- value: what goes out as a response, and for a body what `stream_body` is called with. The files' sizes
-- are those of the sources, `ByteSource.file_size`.
pub mod Answers
mod Tests
use seekserve.Common.{
  ℕ, suc, ◌+◌, ◌-◌, Bool, true, false, not, ◌&&◌, Option, none, some, [], ◌∷◌, ◌++◌, if◌then◌else◌,
}
use seekserve.Common.Int.{ℤ, pos, ◌+ℤ◌, ◌-ℤ◌}
use seekserve.Common.Bytes.{Bytes, codes, is_empty}
use seekserve.Types.{TorrentId, FileIndex, ByteRange}
use seekserve.RangeParser.{ParsedRange, parse_range_header}
use seekserve.Http.Url.{ParsedTarget, parse_target, mime_type, index_text}
use seekserve.Http.Auth.{Method, get, head, other, Request, constant_time_compare, extract_token}
use seekserve.Http.Registry.{SourceEntry, Server, find_source}

pub data Status : Type 0 where
  ok_200 partial_content forbidden not_found method_not_allowed range_not_satisfiable : Status

-- A call of the range callback.
pub record Notice : Type 0 where
  pub range : ByteRange
  pub torrent_id : TorrentId
  pub file_index : FileIndex

pub record Head : Type 0 where
  pub status : Status
  pub content_type : Bytes
  pub content_length : ℤ
  pub content_range : Bytes

pub data Reply : Type 0 where
  -- A response with a string body: status, content type, content range, body.
  small : Status → Bytes → Bytes → Bytes → Reply
  -- `send_head`
  head_only : Head → Reply
  -- `stream_body`: the header, the source, the start offset and the length.
  streams : Head → ℕ → ℤ → ℤ → Reply

pub record Handled : Type 0 where
  pub notices : Option Notice
  pub reply : Reply

abbrev pub send_error : Status → Bytes → Handled
send_error status body = record {
  notices = none;
  reply = small status (codes "text/plain") [] body;
}

abbrev pub is_head : Method → Bool
is_head head = true
is_head get = false
is_head other = false

abbrev pub is_supported : Method → Bool
is_supported get = true
is_supported head = true
is_supported other = false

-- The callback is called if it is set.
abbrev pub notify : Option ℕ → Notice → Option Notice
notify none n = none
notify (some callback) n = some n

abbrev pub content_type_of : SourceEntry → Bytes
content_type_of entry =
    if is_empty entry.file_path then codes "application/octet-stream" else mime_type entry.file_path

-- Without a Range header: the whole file.
unfoldable pub whole_file : Server → Request → ParsedTarget → SourceEntry → ℤ → Handled
whole_file sv req target entry file_size =
    let response : Head = record {
      status = ok_200;
      content_type = content_type_of entry;
      content_length = file_size;
      content_range = [];
    } in
    record {
      notices = notify sv.range_callback (record {
        range = record { start = pos 0; end = file_size -ℤ pos 1 };
        torrent_id = target.torrent_id;
        file_index = target.file_index;
      });
      reply =
          if is_head req.method
          then head_only response
          else streams response entry.source (pos 0) file_size;
    }

abbrev pub content_range_text : ParsedRange → ℤ → Bytes
content_range_text range file_size =
    codes "bytes "
    ++ (index_text range.start ++ (b'-' ∷ (index_text range.end ++ (b'/' ∷ index_text file_size))))

-- A range inside the file.
unfoldable pub part_of_file :
    Server → Request → ParsedTarget → SourceEntry → ℤ → ParsedRange → Handled
unfolding index_text
part_of_file sv req target entry file_size range =
    let content_length = (range.end -ℤ range.start) +ℤ pos 1 in
    let response : Head = record {
      status = partial_content;
      content_type = content_type_of entry;
      content_length = content_length;
      content_range = content_range_text range file_size;
    } in
    record {
      notices = notify sv.range_callback (record {
        range = record { start = range.start; end = range.end };
        torrent_id = target.torrent_id;
        file_index = target.file_index;
      });
      reply =
          if is_head req.method
          then head_only response
          else streams response entry.source range.start content_length;
    }

abbrev pub unsatisfiable : ℤ → Handled
unsatisfiable file_size = record {
  notices = none;
  reply =
      small range_not_satisfiable (codes "text/plain") (codes "bytes */" ++ index_text file_size)
        (codes "Range Not Satisfiable");
}

unfoldable pub answer_range :
    Server → Request → ParsedTarget → SourceEntry → ℤ → Option Bytes → Handled
unfolding whole_file part_of_file
answer_range sv req target entry file_size none = whole_file sv req target entry file_size
answer_range sv req target entry file_size (some header) =
    elim (parse_range_header header file_size) [
      | none ↦ unsatisfiable file_size
      | some range ↦ part_of_file sv req target entry file_size range
    ]

-- The source of the target, if it is registered.
unfoldable pub serve_target : Server → (ℕ → ℕ) → Request → ParsedTarget → Handled
unfolding answer_range
serve_target sv file_size req target = elim (find_source target.torrent_id target.file_index sv) [
  | none ↦ send_error not_found (codes "Stream not found")
  | some entry ↦ answer_range sv req target entry (pos (file_size entry.source)) req.range
]

-- The token of the request against the server's, when it has one.
unfoldable pub is_authorized : Server → Request → Bool
is_authorized sv req =
    if is_empty sv.auth_token then true else constant_time_compare (extract_token req) sv.auth_token

unfoldable pub handle_connection : Server → (ℕ → ℕ) → Request → Handled
unfolding serve_target is_authorized
handle_connection sv file_size req =
    if not (is_supported req.method)
    then send_error method_not_allowed (codes "Method not allowed")
    else elim (parse_target req.target) [
      | none ↦ send_error not_found (codes "Not found")
      | some target ↦
          if not (is_authorized sv req)
          then send_error forbidden (codes "Forbidden")
          else serve_target sv file_size req target
    ]
