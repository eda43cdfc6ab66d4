-- ===== src/Engine/Callback.antt =====
-- The range callback of the engine's server behind a removal.
use seekserve.Common.{
  ℕ, ◌≡◌, refl, ap, ◌∙◌, Option, none, some, List, [], ◌∷◌, arith, inl, inr, Option-cases,
}
use seekserve.Common.Bytes.{Bytes, bytes_eq_refl}
use seekserve.Common.Assoc.{Assoc, lookup, insert, erase, AllEntries, AllEntries-erase}
use seekserve.Types.{TorrentId, FileIndex, Result, ok, err, Errc, ByteRange}
use seekserve.Http.Registry.{Server, set_range_callback, remove_byte_sources_for_torrent}
use seekserve.Catalog.{get_file, Catalog, TorrentInfo, torrent_info, select_file as catalog_select}
use seekserve.Session.{Libtorrent}
use seekserve.Scheduler.{SchedulerConfig}
use seekserve.Engine.State.{Engine, TorrentState, on_server, valid_handle}
use seekserve.Engine.Torrents.{remove_torrent}
use seekserve.Engine.Selection.{
  select_file, selected, install, install_info, new_state, register, drop_old, path_of,
}
use seekserve.Engine.Streams.{drop_old-some}
use seekserve.Engine.Ticks.{owner, on_owner, on_range}
use seekserve.Engine.Sound.{IsSelection, IsSound}

unfoldable pub callback_of : Option Server → Option ℕ
callback_of none = none
callback_of (some sv) = sv.range_callback

erase-insert :
    (id : Bytes) (v : TorrentState) (m : Assoc TorrentState) → erase id (insert id v m) ≡ erase id m
unfolding erase insert
erase-insert id v [] = ground (arith, bytes_eq_refl id)
erase-insert id v ((k, w) ∷ m) = ground (arith, bytes_eq_refl id, erase-insert id v m)

owner-none :
    (fresh : ℕ) (config : SchedulerConfig) (m : Assoc TorrentState)
    → AllEntries (IsSelection fresh config) m
    → owner fresh m ≡ none
unfolding owner
owner-none fresh config [] h = refl
owner-none fresh config ((k, w) ∷ m) (hw, hm) =
    ground (arith, hw.pointer_given, owner-none fresh config m hm)

-- The callback's pointer behind a selection, which no other selection has.
abbrev Points : TorrentId → ℕ → Engine → Type 0
Points id pointer en =
    (callback_of en.http_server ≡ some pointer) × (owner pointer (erase id en.states) ≡ none)

callback-register :
    (pointer : ℕ) (id j : TorrentId) (fi : FileIndex) (path : Bytes) (o : Option TorrentState)
    (sv : Server)
    → callback_of (on_server (register pointer id fi path) (drop_old j o (some sv))) ≡ some pointer
unfolding callback_of set_range_callback
callback-register pointer id j fi path o sv = let (sv', kept) = drop_old-some j o sv in rw kept refl

install_info-Points :
    (lt : Libtorrent) (now handle : ℕ) (id : TorrentId) (fi : FileIndex) (en : Engine) (sv : Server)
    (m : Option TorrentInfo)
    → IsSound en
    → en.http_server ≡ some sv
    → (install_info lt now handle id fi en m).1 ≡ ok tt
    → Points id en.fresh (install_info lt now handle id fi en m).0
install_info-Points lt now handle id fi en sv none h server_is done = absurd (failed done)
  where
    failed : {c : Errc} → ◌≡◌ {A = Result (Unit {0})} (err c) (ok tt) → ⊥
    failed q = cc
install_info-Points lt now handle id fi en sv (some ti) h server_is done = (
  ap
        (λ (o : Option Server). callback_of (
          on_server (register en.fresh id fi (path_of (get_file id fi en.catalog)))
            (drop_old id (lookup id en.states) o)))
        server_is
      ∙ callback-register en.fresh id id fi (path_of (get_file id fi en.catalog))
          (lookup id en.states) sv,
  ap (owner en.fresh)
        (erase-insert id (new_state lt en.config.scheduler now handle ti fi en.fresh) en.states)
      ∙ owner-none en.fresh en.config.scheduler (erase id en.states)
          (AllEntries-erase (IsSelection en.fresh en.config.scheduler) id en.states h),
)

select_file-Points :
    (lt : Libtorrent) (now : ℕ) (id : TorrentId) (fi : FileIndex) (en : Engine) (sv : Server)
    → IsSound en
    → en.http_server ≡ some sv
    → (select_file lt now id fi en).1 ≡ ok tt
    → Points id en.fresh (select_file lt now id fi en).0
unfolding select_file install
select_file-Points lt now id fi en sv h server_is done =
    elim (Option-cases (valid_handle lt id en)) [
      | inl e ↦ absurd (failed (rw (e, select_file) at done))
      | inr (handle, e) ↦
          rw (e, select_file)
            (go handle (catalog_select id fi en.catalog) (rw (e, select_file) at done))
    ]
  where
    failed : {c : Errc} → ◌≡◌ {A = Result (Unit {0})} (err c) (ok tt) → ⊥
    failed q = cc

    go :
        (handle : ℕ) (p : Catalog × Result (List ℕ))
        → (selected lt now handle id fi en p.0 p.1).1 ≡ ok tt
        → Points id en.fresh (selected lt now handle id fi en p.0 p.1).0
    go handle (catalog, err e) q = absurd (failed q)
    go handle (catalog, ok priorities) q =
        install_info-Points lt now handle id fi (record en { catalog = catalog }) sv
          (torrent_info id catalog) h server_is q

callback-remove :
    (id : TorrentId) (o : Option Server)
    → callback_of (on_server (remove_byte_sources_for_torrent id) o) ≡ callback_of o
unfolding callback_of remove_byte_sources_for_torrent
callback-remove id none = refl
callback-remove id (some sv) = refl

-- After a file has been selected and its torrent removed, the server's range callback still holds the
-- pointer to the destroyed scheduler: it is set, and a call of it finds no scheduler that lives. This is
-- so in every engine whose selections are sound and that has a server, if the selection succeeds.
pub on_range-after_remove :
    (lt : Libtorrent) (now : ℕ) (id : TorrentId) (fi : FileIndex) (en : Engine) (sv : Server)
    (later : ℕ) (range : ByteRange)
    → IsSound en
    → en.http_server ≡ some sv
    → (select_file lt now id fi en).1 ≡ ok tt
    → (callback_of (remove_torrent id (select_file lt now id fi en).0).0.http_server
        ≡ some en.fresh)
      × (on_range en.fresh later range (remove_torrent id (select_file lt now id fi en).0).0 ≡ none)
unfolding remove_torrent on_range
on_range-after_remove lt now id fi en sv later range h server_is done =
    let (set, dead) = select_file-Points lt now id fi en sv h server_is done in
    (
      callback-remove id (select_file lt now id fi en).0.http_server ∙ set,
      ap (on_owner later range (remove_torrent id (select_file lt now id fi en).0).0) dead,
    )
