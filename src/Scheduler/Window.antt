-- ===== src/Scheduler/Window.antt =====
-- Which pieces `set_deadlines` asks for, in which order, and how urgently.
use seekserve.Common.{
  map, subst, sym, ap, ◌∙◌, ℕ, zero, suc, ◌+◌, ◌*◌, ◌≤◌, ◌<◌, ◌≡◌, refl, false, inl, inr, some,
  List, [], ◌∷◌, ◌++◌, arith, Bool-cases, get_elem?, take, All, All-append,
}
use seekserve.Common.Int.{◌≤ℤ◌, ◌<ℤ◌, next}
use seekserve.Types.{PieceIndex}
use seekserve.Availability.{PieceAvailability, is_complete}
use seekserve.Mapper.{Mapper, first_piece, end_piece}
use seekserve.Scheduler.{
  HandleCall, set_piece_deadline, clear_piece_deadlines, set_deadlines, Scheduler, Deadline, Loop,
  skips, sizes, hot_loop, lookahead_loop,
}
use seekserve.Scheduler.Deadlines.{wanted, wanted_all, set_deadlines-take}

-- The deadlines among the calls of a torrent's handle.
unfoldable pub deadlines_in : List HandleCall → List Deadline
deadlines_in [] = []
deadlines_in (clear_piece_deadlines ∷ calls) = deadlines_in calls
deadlines_in (set_piece_deadline d ∷ calls) = d ∷ deadlines_in calls

deadlines_in-map : (ds : List Deadline) → deadlines_in (map set_piece_deadline ds) ≡ ds
unfolding deadlines_in
deadlines_in-map [] = refl
deadlines_in-map (d ∷ ds) = ap (◌∷◌ d) (deadlines_in-map ds)

-- What `set_deadlines` sets, against the description of its loops.
set_deadlines-planned :
    (s : Scheduler) (avail : PieceAvailability) (mapper : Mapper)
    → take s.config.deadline_budget (wanted_all s avail mapper)
      ≡ deadlines_in (set_deadlines s avail mapper).1
set_deadlines-planned s avail mapper =
    sym (ap deadlines_in (set_deadlines-take s avail mapper).0 ∙ deadlines_in-map _)

-- A piece of the file that has not been downloaded.
pub record IsNeeded (avail : PieceAvailability) (file_first file_end : PieceIndex) (d : Deadline)
    : Type 0 where
  pub from_first : file_first ≤ℤ d.piece
  pub before_end : d.piece <ℤ file_end
  pub is_missing : is_complete avail d.piece ≡ false

module _ (avail : PieceAvailability) where
  wanted-IsNeeded :
      (l : Loop) (k i : ℕ) (p : PieceIndex)
      → All (IsNeeded avail l.file_first l.file_end) (wanted avail l k i p)
  unfolding wanted
  wanted-IsNeeded l zero i p = tt
  wanted-IsNeeded l (suc k) i p = elim (Bool-cases (skips avail l p)) [
    | inl skipped ↦ rw (skipped, wanted) (wanted-IsNeeded l k (suc i) (next p))
    | inr kept ↦ rw (kept, wanted) (needed kept, wanted-IsNeeded l k (suc i) (next p))
  ]
    where
      needed :
          skips avail l p ≡ false
          → IsNeeded avail l.file_first l.file_end
              (record { piece = p; ms = l.base_ms + i * l.step_ms })
      needed kept = ground arith

  All-take {κ} : (P : Deadline → Type κ) (n : ℕ) (xs : List Deadline) → All P xs → All P (take n xs)
  All-take P zero xs h = tt
  All-take P (suc n) [] h = tt
  All-take P (suc n) (x ∷ xs) h = (h.0, All-take P n xs h.1)

  -- Every deadline that `set_deadlines` sets is for a missing piece of the file that is played.
  pub set_deadlines-IsNeeded :
      (mapper : Mapper) (s : Scheduler)
      → All
          (IsNeeded avail (first_piece mapper) (end_piece mapper))
          (deadlines_in (set_deadlines s avail mapper).1)
  unfolding wanted_all
  set_deadlines-IsNeeded mapper s = subst (All needed) (set_deadlines-planned s avail mapper) (
      All-take needed s.config.deadline_budget _ (
        All-append needed _ _
          (wanted-IsNeeded (hot_loop s mapper) (sizes s).hot_size 0 s.playhead_piece)
          (wanted-IsNeeded (lookahead_loop s mapper) (sizes s).lookahead_size 0 _)))
    where
      needed : Deadline → Type 0
      needed = IsNeeded avail (first_piece mapper) (end_piece mapper)

-- The list goes up strictly, in pieces and in milliseconds, within these bounds; the upper ones are
-- not reached.
abbrev pub Ascends : PieceIndex → PieceIndex → ℕ → ℕ → List Deadline → Type 0
Ascends lo hi soon late [] = (lo ≤ℤ hi) × (soon ≤ late)
Ascends lo hi soon late (d ∷ ds) =
    (lo ≤ℤ d.piece) × (soon ≤ d.ms) × Ascends (next d.piece) hi (suc d.ms) late ds

wanted_first :
    (avail : PieceAvailability) (l : Loop) (p : PieceIndex)
    → skips avail l p ≡ false
    → (k n : ℕ) (later : List Deadline) → 0 < k
    → 0 < n
    → get_elem? (take n (wanted avail l k 0 p ++ later)) 0
      ≡ some (record { piece = p; ms = l.base_ms + 0 * l.step_ms })
unfolding wanted
wanted_first avail l p kept zero n later hk hn = absurd (omega arith)
wanted_first avail l p kept (suc k) zero later hk hn = absurd (omega arith)
wanted_first avail l p kept (suc k) (suc n) later hk hn = rw kept

-- The piece at the playhead, if it is a missing piece of the file, comes first and gets 100 ms, as
-- long as the hot window and the budget are not empty.
pub set_deadlines_playhead_first :
    (s : Scheduler) (avail : PieceAvailability) (mapper : Mapper)
    → first_piece mapper ≤ℤ s.playhead_piece
    → s.playhead_piece <ℤ end_piece mapper
    → is_complete avail s.playhead_piece ≡ false
    → 0 < (sizes s).hot_size
    → 0 < s.config.deadline_budget
    → get_elem? (deadlines_in (set_deadlines s avail mapper).1) 0
      ≡ some (record { piece = s.playhead_piece; ms = 100 })
unfolding wanted_all
set_deadlines_playhead_first s avail mapper from_first before_end missing hot budget =
    ap (λ (ds : List Deadline). get_elem? ds 0) (sym (set_deadlines-planned s avail mapper))
    ∙ wanted_first avail (hot_loop s mapper) s.playhead_piece (ground arith) (sizes s).hot_size
        s.config.deadline_budget _ hot budget
