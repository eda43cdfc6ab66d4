-- ===== src/Engine/Sound.antt =====
-- The engine's selections: their pointers and their schedulers.
use seekserve.Common.{
  ℕ, suc, ◌<◌, ◌≡◌, Bool, true, false, Option, none, some, List, [], ◌∷◌, arith, inl, inr,
  Option-cases,
}
use seekserve.Common.Assoc.{
  Assoc, lookup, insert, AllEntries, AllSome, AllEntries-lookup, AllEntries-insert, AllEntries-map,
}
use seekserve.Types.{TorrentId, FileIndex, PieceIndex, Result, ok, err}
use seekserve.Catalog.{Catalog, TorrentInfo, torrent_info, select_file as catalog_select}
use seekserve.Cache.{Cache}
use seekserve.Session.{Libtorrent}
use seekserve.Scheduler.{SchedulerConfig}
use seekserve.Scheduler.Budget.{
  IsWithin, make_scheduler-IsWithin, tick-IsWithin, on_piece_complete-IsWithin,
}
use seekserve.Engine.State.{Engine, TorrentState, valid_handle}
use seekserve.Engine.Alerts.{piece_on, on_piece_alert}
use seekserve.Engine.Selection.{select_file, selected, install, install_info, new_state}
use seekserve.Engine.Ticks.{tick_by, tick_state, tick_states, on_tick}

-- A selection whose pointer was given out before, and whose scheduler keeps to the budget.
pub record IsSelection (fresh : ℕ) (config : SchedulerConfig) (state : TorrentState) : Type 0 where
  pub pointer_given : state.pointer < fresh
  pub scheduler_within : IsWithin config state.scheduler

abbrev pub IsSound : Engine → Type 0
IsSound en = AllEntries (IsSelection en.fresh en.config.scheduler) en.states

-- A change that keeps the selections, the configuration and the supply of pointers.
IsSound-same :
    (en en' : Engine)
    → IsSound en
    → en'.states ≡ en.states
    → en'.config ≡ en.config
    → en'.fresh ≡ en.fresh
    → IsSound en'
IsSound-same en en' h states config fresh = rw (states, config, fresh) h

pub on_piece_alert-IsSound :
    (id : TorrentId) (p : PieceIndex) (en : Engine) → IsSound en → IsSound (on_piece_alert id p en)
unfolding on_piece_alert
on_piece_alert-IsSound id p en h =
    go (lookup id en.states)
      (AllEntries-lookup (IsSelection en.fresh en.config.scheduler) id en.states h)
  where
    go :
        (m : Option TorrentState)
        → AllSome (IsSelection en.fresh en.config.scheduler) m
        → IsSound (elim m [
          | none ↦ en
          | some state ↦ record en { states = insert id (piece_on p state) en.states }
        ])
    go none k = h
    go (some state) k =
        AllEntries-insert (IsSelection en.fresh en.config.scheduler) id (piece_on p state) en.states
          (record {
            pointer_given = k.pointer_given;
            scheduler_within =
                on_piece_complete-IsWithin en.config.scheduler state.scheduler p k.scheduler_within;
          })
          h

tick_by-IsSelection :
    (rate : ℕ → ℕ) (now fresh : ℕ) (config : SchedulerConfig) (m : Option ℕ) (state : TorrentState)
    → IsSelection fresh config state
    → IsSelection fresh config (tick_by rate now m state)
unfolding tick_state
tick_by-IsSelection rate now fresh config none state h = h
tick_by-IsSelection rate now fresh config (some handle) state h = record {
  pointer_given = h.pointer_given;
  scheduler_within =
      tick-IsWithin config state.scheduler state.avail state.mapper now (rate handle)
        h.scheduler_within;
}

tick_states-IsSelection :
    (lt : Libtorrent) (rate : ℕ → ℕ) (now clock : ℕ) (en : Engine) (fresh : ℕ)
    (config : SchedulerConfig) (m : Assoc TorrentState) (cache : Cache)
    → AllEntries (IsSelection fresh config) m
    → AllEntries (IsSelection fresh config) (tick_states lt rate now clock en m cache).0
unfolding tick_states
tick_states-IsSelection lt rate now clock en fresh config [] cache h = tt
tick_states-IsSelection lt rate now clock en fresh config ((id, state) ∷ m) cache (hs, hm) = (
  tick_by-IsSelection rate now fresh config (valid_handle lt id en) state hs,
  tick_states-IsSelection lt rate now clock en fresh config m _ hm,
)

pub on_tick-IsSound :
    (lt : Libtorrent) (rate : ℕ → ℕ) (now clock : ℕ) (failed : Bool) (en : Engine)
    → IsSound en
    → IsSound (on_tick lt rate now clock failed en)
unfolding on_tick
on_tick-IsSound lt rate now clock true en h = h
on_tick-IsSound lt rate now clock false en h =
    tick_states-IsSelection lt rate now clock en en.fresh en.config.scheduler en.states en.cache h

install_info-IsSound :
    (lt : Libtorrent) (now handle : ℕ) (id : TorrentId) (fi : FileIndex) (en : Engine)
    (m : Option TorrentInfo)
    → IsSound en
    → IsSound (install_info lt now handle id fi en m).0
unfolding new_state
install_info-IsSound lt now handle id fi en none h = h
install_info-IsSound lt now handle id fi en (some ti) h =
    AllEntries-insert (IsSelection (suc en.fresh) en.config.scheduler) id _ en.states
      (record {
        pointer_given = omega arith;
        scheduler_within = make_scheduler-IsWithin en.config.scheduler _ now;
      })
      (AllEntries-map (IsSelection en.fresh en.config.scheduler)
        (IsSelection (suc en.fresh) en.config.scheduler) en.states older h)
  where
    older :
        (v : TorrentState)
        → IsSelection en.fresh en.config.scheduler v
        → IsSelection (suc en.fresh) en.config.scheduler v
    older v s = record {
      pointer_given = omega (arith, s.pointer_given);
      scheduler_within = s.scheduler_within;
    }

pub select_file-IsSound :
    (lt : Libtorrent) (now : ℕ) (id : TorrentId) (fi : FileIndex) (en : Engine)
    → IsSound en
    → IsSound (select_file lt now id fi en).0
unfolding select_file install
select_file-IsSound lt now id fi en h = elim (Option-cases (valid_handle lt id en)) [
  | inl e ↦ rw (e, select_file) h
  | inr (handle, e) ↦ rw (e, select_file) (go handle (catalog_select id fi en.catalog))
]
  where
    go :
        (handle : ℕ) (p : Catalog × Result (List ℕ))
        → IsSound (selected lt now handle id fi en p.0 p.1).0
    go handle (catalog, err e) = h
    go handle (catalog, ok priorities) =
        install_info-IsSound lt now handle id fi (record en { catalog = catalog })
          (torrent_info id catalog) h
