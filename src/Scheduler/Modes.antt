-- ===== src/Scheduler/Modes.antt =====
-- The three modes over time, and what every call keeps.
use native.Mathlib.Nat.{add-zero, le_trans}
use native.Mathlib.Numerals.{add-one}
use seekserve.Common.{
  ℕ, suc, ◌+◌, ◌-◌, ◌*◌, ◌/◌, ◌≤◌, ◌≡◌, refl, subst, ◌∙◌, Bool, true, not, ◌&&◌, inl, inr, List, [],
  ◌∷◌, arith, ltb, leb, if◌then◌else◌, Bool-cases, length, length-take, take,
}
use seekserve.Common.Int.{ℤ, pos, leb_ℤ}
use seekserve.Types.{
  PieceIndex, ByteRange, StreamMode, streaming_first, download_assist, download_first,
}
use seekserve.Availability.{PieceAvailability, is_complete, contiguous_from}
use seekserve.Availability.Runs.{run_bytes, contiguous_bytes_from_run}
use seekserve.Mapper.{Mapper, map_range}
use seekserve.Scheduler.{
  SchedulerConfig, Scheduler, make_scheduler, is_seek, set_deadlines, on_range_request,
  on_piece_complete, switch_mode, same_mode, evaluate_mode_switch, expire_boost, count_stall, tick,
}
use seekserve.Scheduler.Deadlines.{wanted_all, set_deadlines-take}

-- A call of a public method, with what it finds in the shared objects.
pub data Event : Type 0 where
  request : PieceAvailability → ℕ → ByteRange → Event
  piece_done : PieceIndex → Event
  ticks : PieceAvailability → ℕ → ℕ → Event

pub step : Mapper → Scheduler → Event → Scheduler
step mapper s (request avail now range) = (on_range_request s avail mapper now range).0
step mapper s (piece_done piece) = on_piece_complete s piece
step mapper s (ticks avail now rate) = (tick s avail mapper now rate).0

unfoldable pub run : Mapper → Scheduler → List Event → Scheduler
unfolding step
run mapper s [] = s
run mapper s (e ∷ es) = run mapper (step mapper s e) es

abbrev pub ticks_in : List Event → ℕ
ticks_in [] = 0
ticks_in (request avail now range ∷ es) = ticks_in es
ticks_in (piece_done piece ∷ es) = ticks_in es
ticks_in (ticks avail now rate ∷ es) = suc (ticks_in es)

-- `set_deadlines` writes no field but `active_deadlines`.
set_deadlines_keeps :
    (s : Scheduler) (avail : PieceAvailability) (mapper : Mapper)
    → ((set_deadlines s avail mapper).0.mode ≡ s.mode)
      × ((set_deadlines s avail mapper).0.stall_count ≡ s.stall_count)
      × ((set_deadlines s avail mapper).0.config ≡ s.config)
      × ((set_deadlines s avail mapper).0.active_deadlines ≤ s.config.deadline_budget)
set_deadlines_keeps s avail mapper = rw (set_deadlines-take s avail mapper).1 (
  refl,
  refl,
  refl,
  omega (arith, length-take {0} s.config.deadline_budget (wanted_all s avail mapper)),
)

-- How many ticks a mode and a count of stalls need at the least.
abbrev needs : SchedulerConfig → StreamMode → ℕ → ℕ
needs c streaming_first stalls = stalls
needs c download_assist stalls = c.stall_count_threshold + stalls
needs c download_first stalls = c.stall_count_threshold * 3

record Inv (c : SchedulerConfig) (n : ℕ) (s : Scheduler) : Type 0 where
  same_config : s.config ≡ c
  within_budget : s.active_deadlines ≤ c.deadline_budget
  enough_ticks : needs c s.mode s.stall_count ≤ n

switch_mode-needs :
    (c : SchedulerConfig) (m : StreamMode) (stalls rate n : ℕ) (contig : ℤ)
    → needs c m stalls ≤ n
    → needs c
        (switch_mode c m stalls rate contig)
        (if same_mode (switch_mode c m stalls rate contig) m then stalls else 0)
      ≤ n
unfolding switch_mode
switch_mode-needs c streaming_first stalls rate n contig h = ground arith
switch_mode-needs c download_assist stalls rate n contig h = ground arith
switch_mode-needs c download_first stalls rate n contig h = ground arith

set_deadlines-Inv :
    (c : SchedulerConfig) (n : ℕ) (s : Scheduler) (avail : PieceAvailability) (mapper : Mapper)
    → s.config ≡ c
    → needs c s.mode s.stall_count ≤ n
    → Inv c n (set_deadlines s avail mapper).0
set_deadlines-Inv c n s avail mapper e h = rw (set_deadlines-take s avail mapper).1 (record {
  same_config = e;
  within_budget =
      subst
        (λ d.
          length (take s.config.deadline_budget (wanted_all s avail mapper)) ≤ d.deadline_budget)
        e (omega (arith, length-take {0} s.config.deadline_budget (wanted_all s avail mapper)));
  enough_ticks = h;
})

evaluate-Inv :
    (c : SchedulerConfig) (n : ℕ) (s : Scheduler) (avail : PieceAvailability) (mapper : Mapper)
    (rate : ℕ)
    → s.config ≡ c
    → needs c s.mode s.stall_count ≤ n
    → (needs c
          (evaluate_mode_switch s avail mapper rate).mode
          (evaluate_mode_switch s avail mapper rate).stall_count
        ≤ n)
unfolding evaluate_mode_switch
evaluate-Inv c n s avail mapper rate e h =
    rw e (switch_mode-needs c s.mode s.stall_count rate n _ h)

counted-needs :
    (c : SchedulerConfig) (m : StreamMode) (stalls n : ℕ) (complete : Bool)
    → needs c m stalls ≤ n
    → needs c m (if not complete then stalls + 1 else 0) ≤ suc n
counted-needs c streaming_first stalls n complete h = ground arith
counted-needs c download_assist stalls n complete h = ground arith
counted-needs c download_first stalls n complete h = ground arith

count_stall-Inv :
    (c : SchedulerConfig) (n : ℕ) (s : Scheduler) (avail : PieceAvailability)
    → Inv c n s
    → ((count_stall s avail).config ≡ c)
      × (needs c (count_stall s avail).mode (count_stall s avail).stall_count ≤ suc n)
unfolding count_stall
count_stall-Inv c n s avail v = (
  v.same_config,
  counted-needs c s.mode s.stall_count n (is_complete avail s.playhead_piece) v.enough_ticks,
)

expire_boost-Inv :
    (c : SchedulerConfig) (n : ℕ) (s : Scheduler) (now : ℕ)
    → Inv c n s
    → Inv c n (expire_boost s now)
unfolding expire_boost
expire_boost-Inv c n s now v =
    elim (Bool-cases (
      s.seek_boosting
      && leb s.config.seek_boost_duration_ms ((now - s.seek_boost_start) / 1000000))) [
        | inl over ↦ rw over (record {
          same_config = v.same_config;
          within_budget = v.within_budget;
          enough_ticks = v.enough_ticks;
        })
        | inr runs ↦ rw runs v
      ]

evaluate-config :
    (s : Scheduler) (avail : PieceAvailability) (mapper : Mapper) (rate : ℕ)
    → (evaluate_mode_switch s avail mapper rate).config ≡ s.config
unfolding evaluate_mode_switch
evaluate-config s avail mapper rate = refl

tick-Inv :
    (c : SchedulerConfig) (n : ℕ) (mapper : Mapper) (s : Scheduler) (avail : PieceAvailability)
    (now rate : ℕ)
    → Inv c n s
    → Inv c (suc n) (tick s avail mapper now rate).0
unfolding tick
tick-Inv c n mapper s avail now rate v =
    let (config_is, enough) =
      count_stall-Inv c n (expire_boost s now) avail (expire_boost-Inv c n s now v) in
    set_deadlines-Inv c (suc n)
      (evaluate_mode_switch (count_stall (expire_boost s now) avail) avail mapper rate) avail mapper
      (evaluate-config (count_stall (expire_boost s now) avail) avail mapper rate ∙ config_is)
      (evaluate-Inv c (suc n) (count_stall (expire_boost s now) avail) avail mapper rate config_is
        enough)

request-Inv :
    (c : SchedulerConfig) (n : ℕ) (mapper : Mapper) (s : Scheduler) (avail : PieceAvailability)
    (now : ℕ) (range : ByteRange)
    → Inv c n s
    → Inv c n (on_range_request s avail mapper now range).0
unfolding on_range_request
request-Inv c n mapper s avail now range v =
    let p = (map_range mapper range).first in
    elim (Bool-cases (is_seek s p)) [
      | inl jumped ↦ rw jumped (
          set_deadlines-Inv c n
            (record s { seek_boosting = true; seek_boost_start = now; playhead_piece = p }) avail
            mapper v.same_config v.enough_ticks)
      | inr near ↦ rw near (
          set_deadlines-Inv c n (record s { playhead_piece = p }) avail mapper v.same_config
            v.enough_ticks)
    ]

piece_done-Inv :
    (c : SchedulerConfig) (n : ℕ) (s : Scheduler) (piece : PieceIndex)
    → Inv c n s
    → Inv c n (on_piece_complete s piece)
unfolding on_piece_complete
piece_done-Inv c n s piece v =
    elim (Bool-cases (leb_ℤ s.playhead_piece piece && ltb 0 s.active_deadlines)) [
      | inl counted ↦ rw counted (record {
        same_config = v.same_config;
        within_budget = omega (arith, v.within_budget);
        enough_ticks = v.enough_ticks;
      })
      | inr other ↦ rw other v
    ]

step-Inv :
    (c : SchedulerConfig) (n : ℕ) (mapper : Mapper) (s : Scheduler) (e : Event)
    → Inv c n s
    → Inv c (n + ticks_in (e ∷ [])) (step mapper s e)
unfolding step
step-Inv c n mapper s (request avail now range) v =
    rw add-zero (request-Inv c n mapper s avail now range v)
step-Inv c n mapper s (piece_done piece) v = rw add-zero (piece_done-Inv c n s piece v)
step-Inv c n mapper s (ticks avail now rate) v = rw add-one (tick-Inv c n mapper s avail now rate v)

run-Inv :
    (c : SchedulerConfig) (n m : ℕ) (mapper : Mapper) (s : Scheduler) (es : List Event)
    → m ≡ n + ticks_in es
    → Inv c n s
    → Inv c m (run mapper s es)
unfolding run
run-Inv c n m mapper s [] e v = subst (λ k. Inv c k s) (omega arith) v
run-Inv c n m mapper s (x ∷ es) e v =
    run-Inv c (n + ticks_in (x ∷ [])) m mapper (step mapper s x) es (e ∙ ticks_cons n x es)
      (step-Inv c n mapper s x v)
  where
    ticks_cons :
        (k : ℕ) (y : Event) (ys : List Event)
        → k + ticks_in (y ∷ ys) ≡ k + ticks_in (y ∷ []) + ticks_in ys
    ticks_cons k (request avail now range) ys = omega arith
    ticks_cons k (piece_done piece) ys = omega arith
    ticks_cons k (ticks avail now rate) ys = omega arith

make_scheduler-Inv :
    (c : SchedulerConfig) (mapper : Mapper) (now : ℕ) → Inv c 0 (make_scheduler c mapper now)
unfolding make_scheduler
make_scheduler-Inv c mapper now = record {
  same_config = refl;
  within_budget = omega arith;
  enough_ticks = omega arith;
}

-- Whatever calls a new scheduler receives, in any order, it never has more deadlines than its budget.
pub run_within_budget :
    (c : SchedulerConfig) (mapper : Mapper) (now : ℕ) (es : List Event)
    → (run mapper (make_scheduler c mapper now) es).active_deadlines ≤ c.deadline_budget
run_within_budget c mapper now es =
    (run-Inv c 0 (ticks_in es) mapper (make_scheduler c mapper now) es (omega arith)
      (make_scheduler-Inv c mapper now)).within_budget

abbrev pub least_ticks : SchedulerConfig → StreamMode → ℕ
least_ticks c streaming_first = 0
least_ticks c download_assist = c.stall_count_threshold
least_ticks c download_first = c.stall_count_threshold * 3

least-le-needs :
    (c : SchedulerConfig) (m : StreamMode) (stalls : ℕ) → least_ticks c m ≤ needs c m stalls
least-le-needs c streaming_first stalls = omega arith
least-le-needs c download_assist stalls = omega arith
least-le-needs c download_first stalls = omega arith

-- Whatever calls a new scheduler receives, it is in `download_assist` only after as many ticks as
-- `stall_count_threshold`, and in `download_first` only after three times as many.
pub least_ticks-run :
    (c : SchedulerConfig) (mapper : Mapper) (now : ℕ) (es : List Event)
    → least_ticks c (run mapper (make_scheduler c mapper now) es).mode ≤ ticks_in es
least_ticks-run c mapper now es =
    let s = run mapper (make_scheduler c mapper now) es in
    le_trans (least-le-needs c s.mode s.stall_count)
      (run-Inv c 0 (ticks_in es) mapper (make_scheduler c mapper now) es (omega arith)
        (make_scheduler-Inv c mapper now)).enough_ticks

-- Whatever the download rate, with the playhead on a complete piece, `download_first` is left exactly when the run of complete
-- pieces from there has `min_contiguous_bytes` and, beyond them, as many bytes as the file's first
-- piece has before the file.
pub evaluate_download_first :
    (s : Scheduler) (avail : PieceAvailability) (mapper : Mapper) (rate p : ℕ)
    → s.mode ≡ download_first
    → s.playhead_piece ≡ pos p
    → is_complete avail (pos p) ≡ true
    → (evaluate_mode_switch s avail mapper rate).mode ≡ (
        if leb
          (s.config.min_contiguous_bytes
            + (map_range mapper (record { start = pos 0; end = pos 0 })).first_offset)
          (run_bytes avail p (contiguous_from avail (pos p)))
        then download_assist
        else download_first)
unfolding evaluate_mode_switch switch_mode
evaluate_download_first s avail mapper rate p e f done =
    rw
      (
        e,
        f,
        contiguous_bytes_from_run avail p
            (map_range mapper (record { start = pos 0; end = pos 0 })).first_offset,
        done,
      )
      (ground arith)
