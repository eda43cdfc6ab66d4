-- ===== src/Api/Tests.antt =====
-- A control server with a torrent of two files.
use seekserve.Common.{◌≡◌, refl, true, false, none, some, [], ◌∷◌, ◌++◌, arith, Option}
use seekserve.Common.Int.{pos}
use seekserve.Common.Bytes.{Bytes, codes, bytes_eq}
use seekserve.Types.{ok, err, message}
use seekserve.Mapper.Example.{two_files}
use seekserve.Http.Auth.{extract_token, bearer, constant_time_compare}
use seekserve.Http.Url.{stream_url}
use seekserve.Http.Url.Laws.{IsId}
use seekserve.Http.Registry.{Server, make_server, find_source}
use seekserve.Http.Handler.{
  not_found as not_found_404, send_error as send_stream_error, handle_connection as handle_stream,
}
use seekserve.Http.Handler.Answers.{get_stream}
use seekserve.Catalog.{on_metadata_received, select_file}
use seekserve.Session.{Libtorrent, get_handle}
use seekserve.Api.State.{
  selected_body, error_body, bad_request, prioritizes, Control, Verb, get, post, ApiRequest, absent,
  Json, object, no_object, Outside, forbidden, ok_200, replies, stream_url_body, send_error,
}
use seekserve.Api.Paths.{select_path}
use seekserve.Api.Torrent.{handle_of}
use seekserve.Api.Handler.{handle_connection, is_authorized}
use seekserve.Api.Errors.{IsUntouched, handle_connection-IsUntouched, handle_connection-forbidden}
use seekserve.Api.Effects.{
  request, after_select, handle_connection-select_path, stream_url-after_select,
}
use seekserve.Api.Uncaught.{is_end}

abbrev ab : Bytes
ab = codes "ab"

abbrev lt : Libtorrent
lt = record {
  loads = λ uri save_path. some (ab, 1);
  is_valid = λ h. true;
  has_piece = λ h p. false;
  throws = λ uri save_path. false;
}

-- A body of one byte is an array, and another one an object without members.
abbrev parsed : Bytes → Option Json
parsed [] = none
parsed (c ∷ []) = some no_object
parsed (c ∷ (d ∷ s)) = some (object λ name. absent)

abbrev outside : Outside
outside = record {
  parse = parsed;
  status = λ h. record {
    name = ab;
    progress = record { part = 0; whole = 1 };
    download_rate = 0;
    upload_rate = 0;
    num_peers = 0;
    num_seeds = 0;
    total_download = 0;
    total_upload = 0;
    state = 3;
    paused = false;
  };
  by_access_desc = λ rows. rows;
  is_utf8 = λ s. true;
}

abbrev sv : Server
unfolding make_server
sv = make_server (codes "127.0.0.1") 4 (codes "t")

abbrev c : Control
c = record {
  sessions = record { save_path = codes "/tmp"; handles = (ab, 1) ∷ [] };
  catalog = on_metadata_received ab (record { layout = two_files; num_pieces = 4 }) [];
  range_server = sv;
  cache = record {
    is_open = true;
    max_storage_bytes = pos 0;
    prepares = λ s. true;
    entries = [];
    torrents = [];
  };
  auth_token = codes "t";
}

abbrev bearer_t : Option Bytes
bearer_t = some (codes "Bearer t")

abbrev post_body : Bytes → Bytes → ApiRequest
post_body token body = record {
  method = post;
  target = codes "/api/torrents";
  authorization = some (codes "Bearer " ++ token);
  body = body;
}

ab-IsId : IsId ab
ab-IsId = ((refl, (refl, tt)), cc)

handle_connection-forbidden_example :
    handle_connection lt outside (some (post_body (codes "x") [])) c
    ≡ send_error c forbidden (codes "Invalid or missing auth token")
unfolding extract_token bytes_eq
handle_connection-forbidden_example =
    handle_connection-forbidden lt outside c (post_body (codes "x") []) (omega arith) refl refl
      (omega arith, tt) (omega arith, tt) cc

handle_connection-IsUntouched_example :
    IsUntouched c (handle_connection lt outside (some (post_body (codes "t") [])) c)
unfolding handle_connection extract_token bytes_eq
handle_connection-IsUntouched_example =
    handle_connection-IsUntouched lt outside c (some (post_body (codes "t") [])) refl

-- A body that is an array ends the process.
array_body_ends :
    is_end (handle_connection lt outside (some (post_body (codes "t") (codes "1"))) c).answer ≡ true
unfolding handle_connection extract_token bytes_eq
array_body_ends = refl

authorized :
    (method : Verb) (sub_path : Bytes)
    → is_authorized (request method ab sub_path bearer_t) c ≡ true
unfolding is_authorized extract_token bearer constant_time_compare bytes_eq
authorized method sub_path = refl

present : handle_of lt ab c ≡ some 1
unfolding get_handle bytes_eq
present = refl

chosen : (select_file ab (pos 1) c.catalog).1 ≡ ok (0 ∷ 4 ∷ [])
unfolding select_file on_metadata_received bytes_eq
chosen = refl

handle_connection-select_path_example :
    handle_connection lt outside (some (request post ab (select_path 1) bearer_t)) c ≡ record {
      control = record c { catalog = (select_file ab (pos 1) c.catalog).0 };
      answer = elim (select_file ab (pos 1) c.catalog).1 [
        | ok priorities ↦ replies ok_200 (selected_body (pos 1))
        | err e ↦ replies bad_request (error_body (message e))
      ];
      call = elim (select_file ab (pos 1) c.catalog).1 [
        | ok priorities ↦ some (prioritizes 1 priorities)
        | err e ↦ none
      ];
      shuts_down = false;
    }
handle_connection-select_path_example =
    handle_connection-select_path lt outside ab ab-IsId 1 1 bearer_t c (omega arith)
      (authorized post (select_path 1)) present

no_source : find_source ab (pos 1) c.range_server ≡ none
unfolding find_source sv
no_source = refl

stream_url-after_select_example :
    ((handle_connection lt outside
        (some (request get ab (codes "/stream-url") bearer_t))
        (after_select lt outside ab ab-IsId 1 bearer_t c)).answer
      ≡ replies ok_200
          (stream_url_body (stream_url (codes "127.0.0.1") 0 ab (pos 1) (codes "t")) (pos 1)))
    × (handle_stream
          (after_select lt outside ab ab-IsId 1 bearer_t c).range_server
          (λ s. 1000)
          (get_stream ab 1 (codes "t"))
        ≡ send_stream_error not_found_404 (codes "Stream not found"))
unfolding sv
stream_url-after_select_example =
    stream_url-after_select lt outside ab ab-IsId 1 1 bearer_t c (λ s. 1000) (omega arith)
      (authorized post (select_path 1)) (authorized get (codes "/stream-url")) present chosen refl
      (omega arith, tt) (omega arith, tt) no_source
