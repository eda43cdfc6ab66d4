-- ===== src/Scheduler/Budget.antt =====
-- The number of deadlines of a scheduler against its budget.
use seekserve.Common.{
  ℕ, ◌≤◌, ◌≡◌, refl, ap, ◌∙◌, Bool, true, false, arith, length-take, if◌then◌else◌,
}
use seekserve.Types.{PieceIndex, ByteRange}
use seekserve.Availability.{PieceAvailability}
use seekserve.Mapper.{Mapper}
use seekserve.Scheduler.{
  SchedulerConfig, Scheduler, make_scheduler, set_deadlines, is_seek, on_range_request,
  on_piece_complete, expire_boost, count_stall, evaluate_mode_switch, tick,
}
use seekserve.Scheduler.Deadlines.{set_deadlines-take, wanted_all}

-- The scheduler works with a configuration, and has set no more deadlines than this allows.
pub record IsWithin (config : SchedulerConfig) (s : Scheduler) : Type 0 where
  pub config_is : s.config ≡ config
  pub within : s.active_deadlines ≤ config.deadline_budget

pub make_scheduler-IsWithin :
    (config : SchedulerConfig) (mapper : Mapper) (now : ℕ)
    → IsWithin config (make_scheduler config mapper now)
unfolding make_scheduler
make_scheduler-IsWithin config mapper now = record { config_is = refl; within = omega arith }

pub set_deadlines-IsWithin :
    (config : SchedulerConfig) (s : Scheduler) (avail : PieceAvailability) (mapper : Mapper)
    → s.config ≡ config
    → IsWithin config (set_deadlines s avail mapper).0
set_deadlines-IsWithin config s avail mapper e =
    let same = (set_deadlines-take s avail mapper).1 in
    record {
      config_is = ap (λ (t : Scheduler). t.config) same ∙ e;
      within = omega (
        arith,
        ap (λ (t : Scheduler). t.active_deadlines) same,
        length-take s.config.deadline_budget (wanted_all s avail mapper),
        ap (λ (c : SchedulerConfig). c.deadline_budget) e,
      );
    }

tick-config :
    (s : Scheduler) (avail : PieceAvailability) (mapper : Mapper) (now rate : ℕ)
    → (evaluate_mode_switch (count_stall (expire_boost s now) avail) avail mapper rate).config
      ≡ s.config
unfolding evaluate_mode_switch count_stall expire_boost
tick-config s avail mapper now rate = ground arith

pub tick-IsWithin :
    (config : SchedulerConfig) (s : Scheduler) (avail : PieceAvailability) (mapper : Mapper)
    (now rate : ℕ)
    → IsWithin config s
    → IsWithin config (tick s avail mapper now rate).0
unfolding tick
tick-IsWithin config s avail mapper now rate w =
    set_deadlines-IsWithin config _ avail mapper (tick-config s avail mapper now rate ∙ w.config_is)

pub on_piece_complete-IsWithin :
    (config : SchedulerConfig) (s : Scheduler) (piece : PieceIndex)
    → IsWithin config s
    → IsWithin config (on_piece_complete s piece)
unfolding on_piece_complete
on_piece_complete-IsWithin config s piece w = record {
  config_is = ground (arith, w.config_is);
  within = ground (arith, w.within);
}

sought :
    (b : Bool) (s : Scheduler) (now : ℕ)
    → (if b then record s { seek_boosting = true; seek_boost_start = now } else s).config ≡ s.config
sought true s now = refl
sought false s now = refl

pub on_range_request-IsWithin :
    (config : SchedulerConfig) (s : Scheduler) (avail : PieceAvailability) (mapper : Mapper)
    (now : ℕ) (range : ByteRange)
    → IsWithin config s
    → IsWithin config (on_range_request s avail mapper now range).0
unfolding on_range_request
on_range_request-IsWithin config s avail mapper now range w =
    set_deadlines-IsWithin config _ avail mapper (sought (is_seek s _) s now ∙ w.config_is)
