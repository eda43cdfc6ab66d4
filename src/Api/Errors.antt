-- ===== src/Api/Errors.antt =====
-- What the control server leaves alone: a request that is not authorized, and one that fails.
use seekserve.Common.{
  arith, ◌≢◌, All, Bool-cases, ℕ, ◌≡◌, ◌≤◌, inl, inr, refl, Bool, true, false, Option, none, some,
  ltb, length, le→ltb_false,
}
use seekserve.Common.Bytes.{Bytes, codes, is_empty}
use seekserve.Types.{TorrentId}
use seekserve.Http.Auth.{constant_time_compare, constant_time_compare_iff, extract_token, IsByte}
use seekserve.Catalog.{select_file}
use seekserve.Session.{Libtorrent, add_torrent, remove_torrent}
use seekserve.Api.State.{
  send_texts, Control, Verb, get, post, delete, options, other, ApiRequest, Outside, Outcome,
  StatusCode, ok_200, created, bad_request, forbidden, not_found, payload_too_large,
  internal_server_error, Answer, replies, no_content, closes, terminates, HandleCall, pauses,
  resumes, send_error,
}
use seekserve.Api.Paths.{extract_path, match_torrent, match_select}
use seekserve.Api.Torrent.{
  delete_torrent, get_files, post_select, post_handle, get_status, get_stream_url,
  post_torrent_path, post_match, get_torrent_path, route_torrent,
}
use seekserve.Api.Handler.{
  get_cache, add_from, post_torrents, get_torrents, route_other, route_match, is_options, route,
  is_authorized, as_request, gates, max_body_size, handle_request, handle_connection,
}

abbrev pub is_error : StatusCode → Bool
is_error ok_200 = false
is_error created = false
is_error bad_request = true
is_error forbidden = true
is_error not_found = true
is_error payload_too_large = true
is_error internal_server_error = true

-- No success: an error, no answer, or the end of the process.
abbrev pub is_failure : Answer → Bool
is_failure (replies status body) = is_error status
is_failure no_content = false
is_failure closes = true
is_failure terminates = true

-- Nothing was done but the answer.
abbrev pub IsUntouched : Control → Outcome → Type 0
IsUntouched c o = (o.control ≡ c) × (o.call ≡ none) × (o.shuts_down ≡ false)

module _ (lt : Libtorrent) (outside : Outside) (c : Control) where
  delete_torrent-IsUntouched :
      (id : TorrentId)
      → is_failure (delete_torrent id c).answer ≡ true
      → IsUntouched c (delete_torrent id c)
  unfolding delete_torrent remove_torrent
  delete_torrent-IsUntouched id f = ground arith

  get_torrent_path-IsUntouched :
      (id : TorrentId) (sub_path : Bytes)
      → is_failure (get_torrent_path lt outside id sub_path c).answer ≡ true
      → IsUntouched c (get_torrent_path lt outside id sub_path c)
  unfolding get_torrent_path get_files get_status get_stream_url send_texts
  get_torrent_path-IsUntouched id sub_path f = ground arith

  post_select-IsUntouched :
      (id : TorrentId) (index : Bytes)
      → is_failure (post_select lt id index c).answer ≡ true
      → IsUntouched c (post_select lt id index c)
  unfolding post_select select_file
  post_select-IsUntouched id index f = ground arith

  post_handle-IsUntouched :
      (call : ℕ → HandleCall) (word : Bytes) (id : TorrentId)
      → is_failure (post_handle lt call word id c).answer ≡ true
      → IsUntouched c (post_handle lt call word id c)
  unfolding post_handle
  post_handle-IsUntouched call word id f = ground arith

  post_match-IsUntouched :
      (id : TorrentId) (sub_path : Bytes) (m : Option Bytes)
      → is_failure (post_match lt id sub_path c m).answer ≡ true
      → IsUntouched c (post_match lt id sub_path c m)
  post_match-IsUntouched id sub_path (some index) f = post_select-IsUntouched id index f
  post_match-IsUntouched id sub_path none f = ground (
    arith,
    post_handle-IsUntouched pauses (codes "paused") id,
    post_handle-IsUntouched resumes (codes "resumed") id,
  )

  route_torrent-IsUntouched :
      (method : Verb) (id : TorrentId) (sub_path : Bytes)
      → is_failure (route_torrent lt outside method id sub_path c).answer ≡ true
      → IsUntouched c (route_torrent lt outside method id sub_path c)
  unfolding route_torrent post_torrent_path
  route_torrent-IsUntouched delete id sub_path f = ground (arith, delete_torrent-IsUntouched id)
  route_torrent-IsUntouched get id sub_path f = get_torrent_path-IsUntouched id sub_path f
  route_torrent-IsUntouched post id sub_path f =
      post_match-IsUntouched id sub_path (match_select sub_path) f
  route_torrent-IsUntouched options id sub_path f = (refl, refl, refl)
  route_torrent-IsUntouched other id sub_path f = (refl, refl, refl)

  route_other-IsUntouched :
      (method : Verb) (path : Bytes)
      → is_failure (route_other outside method path c).answer ≡ true
      → IsUntouched c (route_other outside method path c)
  unfolding route_other get_cache send_texts
  route_other-IsUntouched delete path f = (refl, refl, refl)
  route_other-IsUntouched get path f = ground arith
  route_other-IsUntouched post path f = ground arith
  route_other-IsUntouched options path f = (refl, refl, refl)
  route_other-IsUntouched other path f = (refl, refl, refl)

  post_torrents-IsUntouched :
      (body : Bytes)
      → is_failure (post_torrents lt outside body c).answer ≡ true
      → IsUntouched c (post_torrents lt outside body c)
  unfolding post_torrents add_from add_torrent
  post_torrents-IsUntouched body f = ground arith

  route_match-IsUntouched :
      (method : Verb) (path : Bytes) (m : Option (Bytes × Bytes))
      → is_failure (route_match lt outside method path c m).answer ≡ true
      → IsUntouched c (route_match lt outside method path c m)
  route_match-IsUntouched method path none f = route_other-IsUntouched method path f
  route_match-IsUntouched method path (some (id, sub_path)) f =
      ground (arith, route_torrent-IsUntouched method id sub_path)

  route-IsUntouched :
      (method : Verb) (path body : Bytes)
      → is_failure (route lt outside method path body c).answer ≡ true
      → IsUntouched c (route lt outside method path body c)
  unfolding route get_torrents send_texts
  route-IsUntouched method path body f = ground (
    arith,
    post_torrents-IsUntouched body,
    route_match-IsUntouched method path (match_torrent path),
  )

  -- The three tests in front of the routes.
  gates-IsUntouched :
      (large preflight authorized : Bool) (o : Outcome)
      → (is_failure o.answer ≡ true → IsUntouched c o)
      → is_failure (gates large preflight authorized c o).answer ≡ true
      → IsUntouched c (gates large preflight authorized c o)
  gates-IsUntouched true preflight authorized o h f = (refl, refl, refl)
  gates-IsUntouched false true authorized o h f = ground arith
  gates-IsUntouched false false false o h f = (refl, refl, refl)
  gates-IsUntouched false false true o h f = h f

  -- A request that fails, be it refused, unknown, wrong or the end of the process, changes nothing: not the
  -- session, the catalog, the cache or the range server, and no torrent's handle is called.
  pub handle_connection-IsUntouched :
      (req : Option ApiRequest)
      → is_failure (handle_connection lt outside req c).answer ≡ true
      → IsUntouched c (handle_connection lt outside req c)
  unfolding handle_connection handle_request
  handle_connection-IsUntouched none f = (refl, refl, refl)
  handle_connection-IsUntouched (some req) f =
      gates-IsUntouched (ltb max_body_size (length req.body)) (is_options req.method)
        (is_authorized req c) (route lt outside req.method (extract_path req.target) req.body c)
        (route-IsUntouched req.method (extract_path req.target) req.body) f

  is_authorized-false :
      (req : ApiRequest)
      → is_empty c.auth_token ≡ false
      → All IsByte (extract_token (as_request req))
      → All IsByte c.auth_token
      → extract_token (as_request req) ≢ c.auth_token
      → is_authorized req c ≡ false
  unfolding is_authorized
  is_authorized-false req some_token sent own wrong =
      rw some_token
        (elim (Bool-cases (constant_time_compare (extract_token (as_request req)) c.auth_token)) [
          | inl e ↦ absurd (wrong ((constant_time_compare_iff _ _ sent own).0 e))
          | inr e ↦ e
        ])

  -- Without the token nothing is served: a request other than a preflight, with a body of at most 1 MB,
  -- is answered with 403 and has no effect, whatever it asks for. The server has a token, and both tokens
  -- are texts of bytes.
  pub handle_connection-forbidden :
      (req : ApiRequest)
      → length req.body ≤ max_body_size
      → is_options req.method ≡ false
      → is_empty c.auth_token ≡ false
      → All IsByte (extract_token (as_request req))
      → All IsByte c.auth_token
      → extract_token (as_request req) ≢ c.auth_token
      → handle_connection lt outside (some req) c
        ≡ send_error c forbidden (codes "Invalid or missing auth token")
  unfolding handle_connection handle_request
  handle_connection-forbidden req small verb some_token sent own wrong =
      rw (le→ltb_false max_body_size (length req.body) small)
        (rw verb (rw (is_authorized-false req some_token sent own wrong) refl))
