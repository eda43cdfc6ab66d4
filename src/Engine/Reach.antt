-- ===== src/Engine/Reach.antt =====
-- The runs of the engine with the range requests of its server between the operations: a request goes to
-- the scheduler that the server's callback names.
use seekserve.Common.{ℕ, ◌≡◌, subst, Option, none, some, List, [], ◌∷◌, inl, inr, Bool-cases, ◌==◌}
use seekserve.Common.Bytes.{Bytes}
use seekserve.Common.Assoc.{Assoc, AllEntries, AllEntries-insert, AllSome}
use seekserve.Types.{ByteRange}
use seekserve.Scheduler.{SchedulerConfig}
use seekserve.Scheduler.Budget.{on_range_request-IsWithin}
use seekserve.Engine.State.{Engine, TorrentState}
use seekserve.Engine.Ticks.{owner, on_owner, on_range}
use seekserve.Engine.Sound.{IsSelection, IsSound}
use seekserve.Engine.Ops.{Op, run_ops}
use seekserve.Engine.Invariant.{run_ops-IsSound}
use seekserve.Engine.Callback.{callback_of}

-- A request whose callback names a destroyed scheduler makes no move.
pub data Move (en : Engine) : Engine → Type 0 where
  operates : (ops : List Op) → Move en (run_ops ops en)
  serves :
      {en' : Engine} (pointer now : ℕ) (range : ByteRange)
      → callback_of en.http_server ≡ some pointer
      → on_range pointer now range en ≡ some en'
      → Move en en'

pub data Reach (en : Engine) : Engine → Type 0 where
  here : Reach en en
  after : {en' en'' : Engine} → Reach en en' → Move en' en'' → Reach en en''

abbrev OwnerIsSelection : ℕ → SchedulerConfig → Option (Bytes × TorrentState) → Type 0
OwnerIsSelection fresh config none = Unit
OwnerIsSelection fresh config (some (id, state)) = IsSelection fresh config state

owner-IsSelection :
    (pointer fresh : ℕ) (config : SchedulerConfig) (m : Assoc TorrentState)
    → AllEntries (IsSelection fresh config) m
    → OwnerIsSelection fresh config (owner pointer m)
unfolding owner
owner-IsSelection pointer fresh config [] h = tt
owner-IsSelection pointer fresh config ((id, state) ∷ m) (hs, hm) =
    elim (Bool-cases (state.pointer == pointer)) [
      | inl same ↦ rw same hs
      | inr apart ↦ rw apart (owner-IsSelection pointer fresh config m hm)
    ]

on_owner-IsSound :
    (now : ℕ) (range : ByteRange) (en : Engine) (m : Option (Bytes × TorrentState))
    → IsSound en
    → OwnerIsSelection en.fresh en.config.scheduler m
    → AllSome IsSound (on_owner now range en m)
on_owner-IsSound now range en none h s = tt
on_owner-IsSound now range en (some (id, state)) h s =
    AllEntries-insert (IsSelection en.fresh en.config.scheduler) id _ en.states
      (record {
        pointer_given = s.pointer_given;
        scheduler_within =
            on_range_request-IsWithin en.config.scheduler state.scheduler state.avail state.mapper
              now range s.scheduler_within;
      })
      h

on_range-IsSound :
    (pointer now : ℕ) (range : ByteRange) (en : Engine)
    → IsSound en
    → AllSome IsSound (on_range pointer now range en)
unfolding on_range
on_range-IsSound pointer now range en h =
    on_owner-IsSound now range en (owner pointer en.states) h
      (owner-IsSelection pointer en.fresh en.config.scheduler en.states h)

Move-IsSound : {en en' : Engine} → Move en en' → IsSound en → IsSound en'
Move-IsSound {en} (operates ops) h = run_ops-IsSound ops en h
Move-IsSound {en} (serves pointer now range set e) h =
    subst (AllSome IsSound) e (on_range-IsSound pointer now range en h)

-- Over every run of the engine, with operations, alerts, ticks, requests of the control server and range
-- requests in any order: each selection's scheduler has never more deadlines than the configured budget
-- and works with the engine's configuration, and its pointer was given out by the engine before. This
-- holds of an engine without selections.
pub Reach-IsSound : {en en' : Engine} → IsSound en → Reach en en' → IsSound en'
Reach-IsSound h here = h
Reach-IsSound h (after r m) = Move-IsSound m (Reach-IsSound h r)
