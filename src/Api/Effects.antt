-- ===== src/Api/Effects.antt =====
-- Requests on a torrent's paths: what the server makes of them, and what the range server says behind.
use seekserve.Common.{
  subst, arith, ℕ, ◌^◌, ◌<◌, ◌≡◌, All, refl, sym, ap, ◌∙◌, true, false, Option, none, some, List,
  [],
}
use seekserve.Common.Int.{pos}
use seekserve.Common.Bytes.{Bytes, codes, bytes_eq, bytes_eq_refl, Lacks}
use seekserve.Common.Assoc.{lookup-erase}
use seekserve.Types.{TorrentId, FileIndex, Result, ok, err, message}
use seekserve.Http.Auth.{IsByte}
use seekserve.Http.Url.{stream_url, all_bytes}
use seekserve.Http.Url.Laws.{IsId, parse_target-stream_target}
use seekserve.Http.Registry.{Server, find_source}
use seekserve.Http.Handler.{
  not_found as not_found_404, send_error as send_stream_error, handle_connection as handle_stream,
  serve_target,
}
use seekserve.Http.Handler.Answers.{get_stream, authorized_by_url}
use seekserve.Catalog.{Catalog, select_file, selected_file}
use seekserve.Catalog.Laws.{selected_file-select_file}
use seekserve.Session.{Libtorrent, get_handle, has_torrent, remove_torrent}
use seekserve.Api.State.{
  send_texts, all_utf8, selected_body, error_body, bad_request, prioritizes, Control, Verb, get,
  post, delete, options, other, ApiRequest, Outside, Outcome, ok_200, replies, status_body,
  stream_url_body, send_json,
}
use seekserve.Api.Paths.{
  literal-Lacks, below, IsSubPath, match_torrent-below, extract_path-below, select_path,
  match_select-select_path, stoi-index, select_path-Lacks, select_path-IsSubPath,
}
use seekserve.Api.Torrent.{
  handle_of, selected, select_index, post_select, post_torrent_path, post_match, route_torrent,
  get_torrent_path, get_stream_url, delete_torrent, removed,
}
use seekserve.Api.Handler.{
  is_options, is_authorized, route, below_torrent, route_match, handle_request, handle_connection,
}

-- A request without a body on a path of a torrent.
abbrev pub request : Verb → Bytes → Bytes → Option Bytes → ApiRequest
request method id sub_path authorization = record {
  method = method;
  target = below id sub_path;
  authorization = authorization;
  body = [];
}

module _ (lt : Libtorrent) (outside : Outside) (id : TorrentId) (hid : IsId id) where
  route-below :
      (method : Verb) (sub_path : Bytes) (c : Control)
      → is_options method ≡ false
      → IsSubPath sub_path
      → route lt outside method (below id sub_path) [] c
        ≡ below_torrent lt outside method id sub_path c
  unfolding route bytes_eq
  route-below get sub_path c m k =
      ap (route_match lt outside get (below id sub_path) c) (match_torrent-below id sub_path hid k)
  route-below post sub_path c m k =
      ap (route_match lt outside post (below id sub_path) c) (match_torrent-below id sub_path hid k)
  route-below delete sub_path c m k =
      ap (route_match lt outside delete (below id sub_path) c)
        (match_torrent-below id sub_path hid k)
  route-below options sub_path c m k = ground arith
  route-below other sub_path c m k =
      ap (route_match lt outside other (below id sub_path) c)
        (match_torrent-below id sub_path hid k)

  handle_connection-below :
      (method : Verb) (sub_path : Bytes) (auth : Option Bytes) (c : Control)
      → is_options method ≡ false
      → IsSubPath sub_path
      → Lacks b'?' sub_path
      → is_authorized (request method id sub_path auth) c ≡ true
      → handle_connection lt outside (some (request method id sub_path auth)) c
        ≡ below_torrent lt outside method id sub_path c
  unfolding handle_connection handle_request
  handle_connection-below method sub_path auth c m k no_query welcome =
      rw (m, welcome, extract_path-below id sub_path hid.0 no_query)
        (route-below method sub_path c m k)

  handle_of-has_torrent :
      (handle : ℕ) (c : Control)
      → handle_of lt id c ≡ some handle
      → has_torrent id c.sessions ≡ true
  unfolding has_torrent get_handle
  handle_of-has_torrent handle c e = ground arith

  below_torrent-present :
      (method : Verb) (sub_path : Bytes) (c : Control)
      → has_torrent id c.sessions ≡ true
      → below_torrent lt outside method id sub_path c
        ≡ route_torrent lt outside method id sub_path c
  below_torrent-present method sub_path c e = rw e refl

  select_index-handle :
      (handle : ℕ) (fi : FileIndex) (c : Control)
      → handle_of lt id c ≡ some handle
      → select_index lt id c (some fi) ≡ selected handle fi c (select_file id fi c.catalog)
  select_index-handle handle fi c present = rw (present, select_index) refl

  abbrev pub url_of : Server → FileIndex → Bytes
  url_of sv fi = stream_url sv.bind_address sv.port id fi sv.auth_token

  get_stream_url-some :
      (fi : FileIndex) (c : Control)
      → selected_file id c.catalog ≡ some fi
      → outside.is_utf8 (url_of c.range_server fi) ≡ true
      → get_stream_url outside id c
        ≡ send_json c ok_200 (stream_url_body (url_of c.range_server fi) fi)
  unfolding get_stream_url send_texts all_utf8
  get_stream_url-some fi c chosen utf8 = rw (chosen, get_stream_url, utf8) refl

  selected-parts :
      (handle : ℕ) (fi : FileIndex) (c : Control) (p : Catalog × Result (List ℕ))
      → selected handle fi c p ≡ record {
        control = record c { catalog = p.0 };
        answer = elim p.1 [
          | ok priorities ↦ replies ok_200 (selected_body fi)
          | err e ↦ replies bad_request (error_body (message e))
        ];
        call = elim p.1 [ ok priorities ↦ some (prioritizes handle priorities) | err e ↦ none ];
        shuts_down = false;
      }
  selected-parts handle fi c (catalog, err e) = refl
  selected-parts handle fi c (catalog, ok priorities) = refl

  -- POST /api/torrents/{id}/files/{n}/select, for a torrent whose handle is valid, does with the catalog what
  -- its `select_file` does for the file with number n. If that succeeds, the torrent's handle is given the
  -- priorities that it computes, and the answer is 200 with n; else no handle is called, and the answer is
  -- 400 with the error's message. The id is hexadecimal, n fits an int, and the request is authorized.
  pub handle_connection-select_path :
      (n handle : ℕ) (auth : Option Bytes) (c : Control)
      → n < 2 ^ 31
      → is_authorized (request post id (select_path n) auth) c ≡ true
      → handle_of lt id c ≡ some handle
      → handle_connection lt outside (some (request post id (select_path n) auth)) c ≡ record {
        control = record c { catalog = (select_file id (pos n) c.catalog).0 };
        answer = elim (select_file id (pos n) c.catalog).1 [
          | ok priorities ↦ replies ok_200 (selected_body (pos n))
          | err e ↦ replies bad_request (error_body (message e))
        ];
        call = elim (select_file id (pos n) c.catalog).1 [
          | ok priorities ↦ some (prioritizes handle priorities)
          | err e ↦ none
        ];
        shuts_down = false;
      }
  unfolding route_torrent post_torrent_path post_select
  handle_connection-select_path n handle auth c small_index welcome present =
      handle_connection-below post (select_path n) auth c refl (select_path-IsSubPath n)
        (select_path-Lacks n) welcome
      ∙ below_torrent-present post (select_path n) c (handle_of-has_torrent handle c present)
      ∙ ap (post_match lt id (select_path n) c) (match_select-select_path n)
      ∙ ap (select_index lt id c) (stoi-index n small_index)
      ∙ select_index-handle handle (pos n) c present
      ∙ selected-parts handle (pos n) c (select_file id (pos n) c.catalog)

  -- GET /api/torrents/{id}/stream-url, for a torrent with a selected file
  stream_url_answer :
      (fi : FileIndex) (auth : Option Bytes) (c : Control)
      → is_authorized (request get id (codes "/stream-url") auth) c ≡ true
      → has_torrent id c.sessions ≡ true
      → selected_file id c.catalog ≡ some fi
      → outside.is_utf8 (url_of c.range_server fi) ≡ true
      → handle_connection lt outside (some (request get id (codes "/stream-url") auth)) c
        ≡ send_json c ok_200 (
            stream_url_body
              (stream_url c.range_server.bind_address c.range_server.port id fi
                c.range_server.auth_token)
              fi)
  unfolding route_torrent get_torrent_path get_stream_url all_bytes bytes_eq
  stream_url_answer fi auth c welcome present chosen utf8 =
      handle_connection-below get (codes "/stream-url") auth c refl refl
        (literal-Lacks b'?' (codes "/stream-url") refl) welcome
      ∙ below_torrent-present get (codes "/stream-url") c present
      ∙ get_stream_url-some fi c chosen utf8

  stream_not_found :
      (sv : Server) (file_size : ℕ → ℕ) (n : ℕ)
      → n < 2 ^ 31
      → Lacks b'&' sv.auth_token
      → All IsByte sv.auth_token
      → find_source id (pos n) sv ≡ none
      → handle_stream sv file_size (get_stream id n sv.auth_token)
        ≡ send_stream_error not_found_404 (codes "Stream not found")
  unfolding handle_stream serve_target
  stream_not_found sv file_size n small_index lacks bytes absent =
      rw
        (
          parse_target-stream_target id sv.auth_token n hid small_index lacks,
          handle_stream,
          authorized_by_url sv id n hid lacks bytes,
          serve_target,
          absent,
        )
        refl

  -- The control server's state behind the selection of a file.
  abbrev pub after_select : ℕ → Option Bytes → Control → Control
  after_select n auth c =
      (handle_connection lt outside (some (request post id (select_path n) auth)) c).control

  -- A file that is selected over the control server alone has no stream: the selection succeeds, the
  -- stream's URL is then given out with 200, and the range server answers a GET of that URL with 404,
  -- if it had no source for the file before. The id is hexadecimal, the index fits an int, both
  -- requests are authorized, the handle is valid, and the range server's token is a text of bytes
  -- without `&`, and the URL is UTF-8.
  pub stream_url-after_select :
      (n handle : ℕ) (auth : Option Bytes) (c : Control) (file_size : ℕ → ℕ) {ps : List ℕ}
      → n < 2 ^ 31
      → is_authorized (request post id (select_path n) auth) c ≡ true
      → is_authorized (request get id (codes "/stream-url") auth) c ≡ true
      → handle_of lt id c ≡ some handle
      → (select_file id (pos n) c.catalog).1 ≡ ok ps
      → outside.is_utf8 (url_of c.range_server (pos n)) ≡ true
      → Lacks b'&' c.range_server.auth_token
      → All IsByte c.range_server.auth_token
      → find_source id (pos n) c.range_server ≡ none
      → ((handle_connection lt outside
            (some (request get id (codes "/stream-url") auth))
            (after_select n auth c)).answer
          ≡ replies ok_200 (
              stream_url_body
                (stream_url c.range_server.bind_address c.range_server.port id
                  (pos n)
                  c.range_server.auth_token)
                (pos n)))
        × (handle_stream
              (after_select n auth c).range_server
              file_size
              (get_stream id n c.range_server.auth_token)
            ≡ send_stream_error not_found_404 (codes "Stream not found"))
  unfolding is_authorized
  stream_url-after_select n handle auth c file_size small_index welcome welcome' present chosen utf8
        lacks bytes absent =
      let then_is : after_select n auth c
          ≡ record c { catalog = (select_file id (pos n) c.catalog).0 } =
        ap (λ (o : Outcome). o.control)
          (handle_connection-select_path n handle auth c small_index welcome present) in
      rw then_is (
        ap (λ (o : Outcome). o.answer)
            (stream_url_answer (pos n) auth
              (record c { catalog = (select_file id (pos n) c.catalog).0 }) welcome'
              (handle_of-has_torrent handle c present)
              (selected_file-select_file id id (pos n) c.catalog chosen
                ∙ rw (bytes_eq_refl id) refl)
              utf8),
        stream_not_found c.range_server file_size n small_index lacks bytes absent,
      )

  abbrev pub IsDeleted : Control → Outcome → Type 0
  IsDeleted c o =
      (o.answer ≡ replies ok_200 (status_body (codes "removed")))
      × (get_handle id o.control.sessions ≡ none)
      × (o.control.catalog ≡ c.catalog)
      × (o.control.cache ≡ c.cache)
      × (o.control.range_server ≡ c.range_server)

  removed-IsDeleted :
      (c : Control)
      → has_torrent id c.sessions ≡ true
      → IsDeleted c (removed c (remove_torrent id c.sessions))
  unfolding remove_torrent get_handle has_torrent
  removed-IsDeleted c present =
      ground (arith, lookup-erase id id c.sessions.handles, bytes_eq_refl id)

  -- DELETE /api/torrents/{id} of a torrent of the session takes it out of the session and leaves the
  -- catalog, the cache with the saved URI, and the range server's sources as they were. The id is
  -- hexadecimal and the request is authorized.
  pub handle_connection-delete :
      (auth : Option Bytes) (c : Control)
      → is_authorized (request delete id [] auth) c ≡ true
      → has_torrent id c.sessions ≡ true
      → IsDeleted c (handle_connection lt outside (some (request delete id [] auth)) c)
  unfolding route_torrent delete_torrent
  handle_connection-delete auth c welcome present =
      subst (IsDeleted c)
        (sym (
          handle_connection-below delete [] auth c refl refl tt welcome
          ∙ below_torrent-present delete [] c present))
        (removed-IsDeleted c present)
