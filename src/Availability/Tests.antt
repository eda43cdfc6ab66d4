-- ===== src/Availability/Tests.antt =====
-- A torrent of five pieces with three of them complete, and the theorems at it.
use seekserve.Common.{◌+◌, ◌≤◌, ◌≡◌, ◌↔◌, refl, true, false, arith, [], ◌∷◌, ◌&&◌, if◌then◌else◌}
use seekserve.Common.Int.{pos, negsuc, eqb_ℤ}
use seekserve.Types.{PieceSpan}
use seekserve.Availability.{
  PieceAvailability, unset, reset, mark_complete, is_complete, is_span_complete, contiguous_from,
  contiguous_bytes_from, progress,
}
use seekserve.Availability.Marks.{
  IsValid, IsFull, in_range, count_true, mark_complete-IsValid, is_complete-mark_complete,
  progress-IsFull,
}
use seekserve.Availability.Runs.{contiguous_from_run, contiguous_bytes_from_run}
use seekserve.Availability.Threads.{here, after, claim, count, Reach-counter}

abbrev five : PieceAvailability
five = record {
  num_pieces = 5;
  piece_length = 100;
  last_piece_length = 30;
  completed = false ∷ true ∷ false ∷ true ∷ true ∷ [];
  completed_count = 3;
}

abbrev middle : PieceSpan
middle = record { first = pos 3; last = pos 4; first_offset = 0; last_length = 30 }

five-IsValid : IsValid five
five-IsValid = omega arith

runs :
    (mark_complete (mark_complete (mark_complete (reset 5 100 30 unset) (pos 1)) (pos 3)) (pos 4)
      ≡ five)
    × (is_complete five (negsuc 0) ≡ false)
    × (is_complete five (pos 5) ≡ false)
    × (is_span_complete five middle ≡ true)
    × (contiguous_from five (pos 3) ≡ 2)
    × (contiguous_bytes_from five (pos 3) 10 ≡ pos 120)
    × (contiguous_bytes_from five (pos 1) 10 ≡ pos 90)
    × (contiguous_bytes_from five (pos 2) 10 ≡ pos 0)
unfolding mark_complete reset is_complete is_span_complete contiguous_from contiguous_bytes_from
runs = (refl, refl, refl, refl, refl, refl, refl, refl)

mark_complete-IsValid_example : IsValid (mark_complete five (pos 2))
mark_complete-IsValid_example = mark_complete-IsValid five (pos 2) five-IsValid

is_complete-mark_complete_example :
    is_complete (mark_complete five (pos 2)) (pos 2)
    ≡ (if in_range five (pos 2) && eqb_ℤ (pos 2) (pos 2) then true else is_complete five (pos 2))
is_complete-mark_complete_example = is_complete-mark_complete five (pos 2) (pos 2) five-IsValid

progress-IsFull_example :
    ((progress five).part ≤ (progress five).whole)
    × (((progress five).part ≡ (progress five).whole) ↔ IsFull five)
progress-IsFull_example = progress-IsFull five five-IsValid (omega arith)

contiguous_from_run_example : is_complete five (pos 5) ≡ false
unfolding contiguous_from
contiguous_from_run_example = (contiguous_from_run five (pos 3)).1

contiguous_bytes_from_run_example : contiguous_bytes_from five (pos 3) 10 ≡ pos 120
unfolding is_complete contiguous_from
contiguous_bytes_from_run_example = contiguous_bytes_from_run five 3 10

Reach-counter_example : (4 ≤ 5) × (4 + 0 ≡ count_true (false ∷ true ∷ true ∷ true ∷ true ∷ []))
Reach-counter_example =
    Reach-counter {s = record { index = five; pending = 0 }} five-IsValid refl
      (after (after here (claim 2 (omega arith) refl)) (count 0 refl))
