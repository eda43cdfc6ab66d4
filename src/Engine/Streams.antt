-- ===== src/Engine/Streams.antt =====
-- Which streams the range server finds after an operation of the engine.
use seekserve.Common.{
  ℕ, ◌≡◌, refl, ◌∙◌, Bool, true, false, Option, none, some, List, [], arith, if◌then◌else◌, inl,
  inr, Option-cases,
}
use seekserve.Common.Int.{ℤ, pos, eqb_ℤ, leb_ℤ}
use seekserve.Common.Bytes.{Bytes, bytes_eq, bytes_eq_refl, Lacks}
use seekserve.Common.Assoc.{lookup}
use seekserve.Types.{TorrentId, FileIndex, Errc, Result, ok, err, server_already_running}
use seekserve.Http.Registry.{
  Server, SourceEntry, Network, find_source, remove_byte_source, remove_byte_sources_for_torrent,
  set_range_callback, make_server, start, stop,
}
use seekserve.Http.Registry.Lookup.{
  WellKeyed, find_source-set_byte_source, find_source-remove_byte_sources_for_torrent,
}
use seekserve.Catalog.{Catalog, get_file, torrent_info, select_file as catalog_select}
use seekserve.Session.{Libtorrent}
use seekserve.Engine.State.{Engine, TorrentState, valid_handle, on_server}
use seekserve.Engine.Torrents.{remove_torrent}
use seekserve.Engine.Selection.{select_file, selected, install, register, drop_old, path_of}
use seekserve.Engine.Servers.{start_server, start_api}

-- The stream that the engine's server finds; without a server it finds none.
abbrev pub stream_of : TorrentId → FileIndex → Option Server → Option SourceEntry
stream_of id fi none = none
stream_of id fi (some sv) = find_source id fi sv

abbrev pub ServerKeyed : Option Server → Type 0
ServerKeyed none = Unit
ServerKeyed (some sv) = WellKeyed sv

-- When a torrent is removed, the server finds no stream of it any more, and every stream of another
-- torrent as before. The stream's torrent id holds no slash, and the server's registry is keyed.
pub stream_of-remove_torrent :
    (id id' : TorrentId) (fi' : FileIndex) (en : Engine)
    → Lacks b'/' id'
    → ServerKeyed en.http_server
    → stream_of id' fi' (remove_torrent id en).0.http_server
      ≡ (if bytes_eq id id' then none else stream_of id' fi' en.http_server)
unfolding remove_torrent
stream_of-remove_torrent id id' fi' en h keyed = go en.http_server keyed
  where
    go :
        (o : Option Server)
        → ServerKeyed o
        → stream_of id' fi' (on_server (remove_byte_sources_for_torrent id) o)
          ≡ (if bytes_eq id id' then none else stream_of id' fi' o)
    go none k = ground arith
    go (some sv) k = find_source-remove_byte_sources_for_torrent id id' fi' sv h k

registered :
    (pointer : ℕ) (id : TorrentId) (fi : FileIndex) (path : Bytes) (sv : Server)
    → Lacks b'/' id
    → find_source id fi (register pointer id fi path sv)
      ≡ some (record { source = pointer; torrent_id = id; file_index = fi; file_path = path })
unfolding set_range_callback find_source
registered pointer id fi path sv h =
    find_source-set_byte_source pointer id id fi fi path sv h h
    ∙ rw (bytes_eq_refl id, same fi) refl
  where
    same : (a : ℤ) → eqb_ℤ a a ≡ true
    same a = ground arith

-- The server behind the removal of an old selection is there if it was there before.
pub drop_old-some :
    (id : TorrentId) (o : Option TorrentState) (sv : Server)
    → (sv' : Server) × (drop_old id o (some sv) ≡ some sv')
drop_old-some id none sv = (sv, refl)
drop_old-some id (some old) sv = go (leb_ℤ (pos 0) old.selected_file)
  where
    go :
        (b : Bool)
        → (sv' : Server) × ((if b
              then on_server (remove_byte_source id old.selected_file) (some sv)
              else some sv)
            ≡ some sv')
    go true = (remove_byte_source id old.selected_file sv, refl)
    go false = (sv, refl)

-- The stream of a selection, and the selection's pointer as its source.
abbrev pub Finds : TorrentId → FileIndex → ℕ → Option Server → Type 0
Finds id fi pointer server =
    (path : Bytes) × (stream_of id fi server
      ≡ some (record { source = pointer; torrent_id = id; file_index = fi; file_path = path }))

install-Finds :
    (lt : Libtorrent) (now handle : ℕ) (id : TorrentId) (fi : FileIndex) (en : Engine) (sv : Server)
    → Lacks b'/' id
    → en.http_server ≡ some sv
    → (install lt now handle id fi en).1 ≡ ok tt
    → Finds id fi en.fresh (install lt now handle id fi en).0.http_server
unfolding install
install-Finds lt now handle id fi en sv h server_is done =
    elim (Option-cases (torrent_info id en.catalog)) [
      | inl missing ↦ absurd (failed (rw (missing, install) at done))
      | inr (ti, there) ↦
          let (sv', kept) = drop_old-some id (lookup id en.states) sv in
          (
            path_of (get_file id fi en.catalog),
            rw (there, install, server_is, kept)
                (registered en.fresh id fi (path_of (get_file id fi en.catalog)) sv' h),
          )
    ]
  where
    failed : {c : Errc} → ◌≡◌ {A = Result (Unit {0})} (err c) (ok tt) → ⊥
    failed q = cc

selected-Finds :
    (lt : Libtorrent) (now handle : ℕ) (id : TorrentId) (fi : FileIndex) (en : Engine)
    (catalog : Catalog) (r : Result (List ℕ)) (sv : Server)
    → Lacks b'/' id
    → en.http_server ≡ some sv
    → (selected lt now handle id fi en catalog r).1 ≡ ok tt
    → Finds id fi en.fresh (selected lt now handle id fi en catalog r).0.http_server
selected-Finds lt now handle id fi en catalog (err e) sv h server_is done = absurd (failed done)
  where
    failed : ◌≡◌ {A = Result (Unit {0})} (err e) (ok tt) → ⊥
    failed q = cc
selected-Finds lt now handle id fi en catalog (ok ps) sv h server_is done =
    install-Finds lt now handle id fi (record en { catalog = catalog }) sv h server_is done

-- After a selection that succeeds while the engine has a server, a request for the torrent and file
-- finds the new source. The torrent id holds no slash.
pub select_file-Finds :
    (lt : Libtorrent) (now : ℕ) (id : TorrentId) (fi : FileIndex) (en : Engine) (sv : Server)
    → Lacks b'/' id
    → en.http_server ≡ some sv
    → (select_file lt now id fi en).1 ≡ ok tt
    → Finds id fi en.fresh (select_file lt now id fi en).0.http_server
unfolding select_file
select_file-Finds lt now id fi en sv h server_is done =
    elim (Option-cases (valid_handle lt id en)) [
      | inl invalid ↦ absurd (failed (rw (invalid, select_file) at done))
      | inr (handle, valid) ↦
          rw (valid, select_file)
            (selected-Finds lt now handle id fi en (catalog_select id fi en.catalog).0
              (catalog_select id fi en.catalog).1 sv h server_is (rw (valid, select_file) at done))
    ]
  where
    failed : {c : Errc} → ◌≡◌ {A = Result (Unit {0})} (err c) (ok tt) → ⊥
    failed q = cc

start-empty :
    (net : Network) (port : ℕ) (sv : Server) → sv.sources ≡ [] → (start net port sv).0.sources ≡ []
unfolding start
start-empty net port sv h = ground (arith, h)

start_api-empty :
    (api : Result ℕ) (en : Engine) (sv : Server) (r : Result ℕ) (id : TorrentId) (fi : FileIndex)
    → sv.sources ≡ []
    → stream_of id fi (start_api api en sv r).0.http_server ≡ none
unfolding find_source lookup stop
start_api-empty api en sv (err e) id fi h = rw h refl
start_api-empty (err e) en sv (ok port) id fi h = ground (arith, h)
start_api-empty (ok api_port) en sv (ok port) id fi h = rw h refl

-- A server that starts knows no stream, whatever was selected before: `start_server` does not register
-- the sources that the engine already has. The engine's server was not running.
pub stream_of-start_server :
    (net : Network) (api : Result ℕ) (en : Engine) (id : TorrentId) (fi : FileIndex)
    → en.server_running ≡ false
    → stream_of id fi (start_server net api en).0.http_server ≡ none
unfolding start_server make_server
stream_of-start_server net api en id fi off = go en.server_running off
  where
    fresh : Server
    fresh = make_server en.config.bind_address en.config.max_concurrent_streams en.config.auth_token

    started : Server × Result ℕ
    started = start net en.config.stream_port fresh

    go :
        (b : Bool)
        → b ≡ false
        → stream_of id fi
            (if b
              then (en, err server_already_running)
              else start_api api en started.0 started.1).0.http_server
          ≡ none
    go true e = cc
    go false e =
        start_api-empty api en started.0 started.1 id fi
          (start-empty net en.config.stream_port fresh refl)
