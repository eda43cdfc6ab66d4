-- ===== src/Engine/Requests.antt =====
-- What the control server cannot bring back: no request puts a torrent into the catalog that is not there.
use seekserve.Common.{
  ◌≡◌, ℕ, Bool, true, false, Option, none, some, ltb, length, arith, inl, inr, List, Option-cases,
}
use seekserve.Common.Bytes.{Bytes, codes}
use seekserve.Common.Assoc.{lookup}
use seekserve.Common.Decimal.{stoi}
use seekserve.Types.{TorrentId, FileIndex, Result, ok, err}
use seekserve.Catalog.{Catalog, select_file}
use seekserve.Session.{Libtorrent, add_torrent, remove_torrent}
use seekserve.Api.State.{
  send_texts, Control, Verb, get, post, delete, options, other, ApiRequest, Outside, Outcome,
  HandleCall, pauses, resumes,
}
use seekserve.Api.Paths.{extract_path, match_torrent, match_select}
use seekserve.Api.Torrent.{
  delete_torrent, get_files, select_index, selected, handle_of, post_select, post_handle,
  get_status, get_stream_url, post_torrent_path, post_match, get_torrent_path, route_torrent,
}
use seekserve.Api.Handler.{
  get_cache, add_from, post_torrents, get_torrents, route_other, route_match, is_options, route,
  is_authorized, gates, max_body_size, handle_request, handle_connection,
}
use seekserve.Engine.Gone.{catalog_select-absent}

-- The torrent is not in the catalog afterwards.
abbrev pub IsAbsent : TorrentId → Outcome → Type 0
IsAbsent id o = lookup id o.control.catalog ≡ none

module _ (lt : Libtorrent) (outside : Outside) (id : TorrentId) (c : Control)
    (gone : lookup id c.catalog ≡ none) where
  delete_torrent-IsAbsent : (id' : TorrentId) → IsAbsent id (delete_torrent id' c)
  unfolding delete_torrent remove_torrent
  delete_torrent-IsAbsent id' = ground arith

  get_torrent_path-IsAbsent :
      (id' : TorrentId) (sub_path : Bytes)
      → IsAbsent id (get_torrent_path lt outside id' sub_path c)
  unfolding get_torrent_path get_files get_status get_stream_url send_texts
  get_torrent_path-IsAbsent id' sub_path = ground arith

  selected-IsAbsent :
      (handle : ℕ) (fi : FileIndex) (p : Catalog × Result (List ℕ))
      → lookup id p.0 ≡ none
      → IsAbsent id (selected handle fi c p)
  selected-IsAbsent handle fi (catalog, err e) h = h
  selected-IsAbsent handle fi (catalog, ok priorities) h = h

  select_index-IsAbsent :
      (id' : TorrentId) (m : Option FileIndex) → IsAbsent id (select_index lt id' c m)
  select_index-IsAbsent id' none = gone
  select_index-IsAbsent id' (some fi) = elim (Option-cases (handle_of lt id' c)) [
    | inl invalid ↦ rw (invalid, select_index) gone
    | inr (handle, valid) ↦
        rw (valid, select_index)
          (selected-IsAbsent handle fi (select_file id' fi c.catalog)
            (catalog_select-absent id id' fi c.catalog gone))
  ]

  post_handle-IsAbsent :
      (call : ℕ → HandleCall) (word : Bytes) (id' : TorrentId)
      → IsAbsent id (post_handle lt call word id' c)
  unfolding post_handle
  post_handle-IsAbsent call word id' = ground arith

  post_match-IsAbsent :
      (id' : TorrentId) (sub_path : Bytes) (m : Option Bytes)
      → IsAbsent id (post_match lt id' sub_path c m)
  unfolding post_select
  post_match-IsAbsent id' sub_path (some index) = select_index-IsAbsent id' (stoi index)
  post_match-IsAbsent id' sub_path none = ground (
    arith,
    post_handle-IsAbsent pauses (codes "paused") id',
    post_handle-IsAbsent resumes (codes "resumed") id',
  )

  route_torrent-IsAbsent :
      (method : Verb) (id' : TorrentId) (sub_path : Bytes)
      → IsAbsent id (route_torrent lt outside method id' sub_path c)
  unfolding route_torrent post_torrent_path
  route_torrent-IsAbsent delete id' sub_path = ground (arith, delete_torrent-IsAbsent id')
  route_torrent-IsAbsent get id' sub_path = get_torrent_path-IsAbsent id' sub_path
  route_torrent-IsAbsent post id' sub_path =
      post_match-IsAbsent id' sub_path (match_select sub_path)
  route_torrent-IsAbsent options id' sub_path = gone
  route_torrent-IsAbsent other id' sub_path = gone

  route_other-IsAbsent :
      (method : Verb) (path : Bytes) → IsAbsent id (route_other outside method path c)
  unfolding route_other get_cache send_texts
  route_other-IsAbsent delete path = gone
  route_other-IsAbsent get path = ground arith
  route_other-IsAbsent post path = ground arith
  route_other-IsAbsent options path = gone
  route_other-IsAbsent other path = gone

  post_torrents-IsAbsent : (body : Bytes) → IsAbsent id (post_torrents lt outside body c)
  unfolding post_torrents add_from add_torrent
  post_torrents-IsAbsent body = ground arith

  route_match-IsAbsent :
      (method : Verb) (path : Bytes) (m : Option (Bytes × Bytes))
      → IsAbsent id (route_match lt outside method path c m)
  route_match-IsAbsent method path none = route_other-IsAbsent method path
  route_match-IsAbsent method path (some (id', sub_path)) =
      ground (arith, route_torrent-IsAbsent method id' sub_path)

  route-IsAbsent :
      (method : Verb) (path body : Bytes) → IsAbsent id (route lt outside method path body c)
  unfolding route get_torrents send_texts
  route-IsAbsent method path body =
      ground
        (arith, post_torrents-IsAbsent body, route_match-IsAbsent method path (match_torrent path))

  gates-IsAbsent :
      (large preflight authorized : Bool) (o : Outcome)
      → IsAbsent id o
      → IsAbsent id (gates large preflight authorized c o)
  gates-IsAbsent true preflight authorized o h = gone
  gates-IsAbsent false true authorized o h = gone
  gates-IsAbsent false false false o h = gone
  gates-IsAbsent false false true o h = h

  -- A request puts no torrent into the catalog that was not there.
  pub handle_connection-IsAbsent :
      (req : Option ApiRequest) → IsAbsent id (handle_connection lt outside req c)
  unfolding handle_connection handle_request
  handle_connection-IsAbsent none = gone
  handle_connection-IsAbsent (some req) =
      gates-IsAbsent (ltb max_body_size (length req.body)) (is_options req.method)
        (is_authorized req c) (route lt outside req.method (extract_path req.target) req.body c)
        (route-IsAbsent req.method (extract_path req.target) req.body)
