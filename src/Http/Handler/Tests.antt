-- ===== src/Http/Handler/Tests.antt =====
-- Requests to a server with one stream.
use seekserve.Common.{ℕ, ◌≡◌, refl, true, some, [], ◌++◌, arith}
use seekserve.Common.Int.{pos}
use seekserve.Common.Bytes.{Bytes, codes, bytes_eq}
use seekserve.Common.Decimal.{to_string}
use seekserve.Http.Auth.{Request, get, extract_token}
use seekserve.Http.Registry.{SourceEntry, Server, make_server, set_byte_source, find_source}
use seekserve.Http.Handler.{streams, ok_200, handle_connection, content_type_of}
use seekserve.Http.Handler.Answers.{
  IsRefusal, IsInside, get_stream, handle_connection_unauthorized, handle_connection-IsInside,
  handle_connection-stream_target,
}

abbrev ab : Bytes
ab = codes "ab"

abbrev entry : SourceEntry
entry = record { source = 7; torrent_id = ab; file_index = pos 0; file_path = codes "m.mp4" }

abbrev sv : Server
sv = set_byte_source 7 ab (pos 0) (codes "m.mp4") (make_server (codes "127.0.0.1") 4 (codes "t"))

abbrev sizes : ℕ → ℕ
sizes s = 1000

entry_found : find_source ab (pos 0) sv ≡ some entry
unfolding find_source set_byte_source make_server bytes_eq to_string
entry_found = refl

abbrev with_token : Bytes → Request
with_token token = record {
  method = get;
  target = codes "/stream/ab/0";
  authorization = some (codes "Bearer " ++ token);
  range = some (codes "bytes=0-99");
  keep_alive = true;
}

handle_connection_unauthorized_example :
    IsRefusal (handle_connection sv sizes (with_token (codes "x")))
unfolding extract_token bytes_eq set_byte_source make_server
handle_connection_unauthorized_example =
    handle_connection_unauthorized sv sizes (with_token (codes "x")) (λ e. cc) (omega arith, tt)
      (omega arith, tt) λ e. cc

handle_connection-IsInside_example :
    IsInside sizes (handle_connection sv sizes (with_token (codes "t"))).reply
handle_connection-IsInside_example = handle_connection-IsInside sv sizes (with_token (codes "t"))

handle_connection-stream_target_example :
    (handle_connection sv sizes (get_stream ab 0 sv.auth_token)).reply
    ≡ streams
        (record {
          status = ok_200;
          content_type = content_type_of entry;
          content_length = pos 1000;
          content_range = [];
        })
        7
        (pos 0)
        (pos 1000)
unfolding set_byte_source make_server
handle_connection-stream_target_example =
    handle_connection-stream_target sv sizes ab 0 entry ((refl, (refl, tt)), λ e. cc) (omega arith)
      (omega arith, tt) (omega arith, tt) entry_found
