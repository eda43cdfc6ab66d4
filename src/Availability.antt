-- ===== src/Availability.antt =====
-- seekserve-core/src/piece_availability.cpp: `PieceAvailabilityIndex`.
-- An atomic operation is one step; each method here runs with no other thread in between, and
-- Availability/Threads.antt interleaves `mark_complete`. A `float` ratio is a pair of numbers.
pub mod Marks
pub mod Runs
pub mod Threads
mod Tests
use seekserve.Common.{
  ℕ, zero, suc, ◌+◌, Bool, true, false, not, List, [], ◌∷◌, leb, ◌==◌, if◌then◌else◌, length,
  get_or, set, replicate,
}
use seekserve.Common.Int.{ℤ, pos, negsuc, sub_ℕ, ◌+ℤ◌, eqb_ℤ, rounds, next}
use seekserve.Types.{PieceIndex, PieceSpan}

pub record PieceAvailability : Type 0 where
  pub num_pieces : ℕ
  pub piece_length : ℕ
  pub last_piece_length : ℕ
  pub completed : List Bool
  pub completed_count : ℕ

-- The default constructor.
abbrev pub unset : PieceAvailability
unset = record {
  num_pieces = 0;
  piece_length = 0;
  last_piece_length = 0;
  completed = [];
  completed_count = 0;
}

-- The constructor with sizes builds what `reset` builds.
unfoldable pub reset : ℕ → ℕ → ℕ → PieceAvailability → PieceAvailability
reset num_pieces piece_length last_piece_length a = record {
  num_pieces = num_pieces;
  piece_length = piece_length;
  last_piece_length = last_piece_length;
  completed = replicate num_pieces false;
  completed_count = 0;
}

-- compare_exchange_strong(false, true) on the piece's flag, and fetch_add(1) if it succeeded.
exchange : PieceAvailability → ℕ → PieceAvailability
exchange a p =
    if get_or a.completed p true
    then a
    else record a { completed = set a.completed p true; completed_count = a.completed_count + 1 }

unfoldable pub mark_complete : PieceAvailability → PieceIndex → PieceAvailability
unfolding exchange
mark_complete a (negsuc n) = a
mark_complete a (pos p) = if leb a.num_pieces p then a else exchange a p

unfoldable pub is_complete : PieceAvailability → PieceIndex → Bool
is_complete a (negsuc n) = false
is_complete a (pos p) = if leb a.num_pieces p then false else get_or a.completed p false

-- for (p = first; p <= last; ++p) if (!is_complete(p)) return false;
all_complete : PieceAvailability → ℕ → PieceIndex → Bool
unfolding is_complete
all_complete a zero p = true
all_complete a (suc k) p =
    let rest = all_complete a k (next p) in if is_complete a p then rest else false

unfoldable pub is_span_complete : PieceAvailability → PieceSpan → Bool
unfolding all_complete
is_span_complete a span = all_complete a (rounds span.first (next span.last)) span.first

-- for (p = start; p < num_pieces_; ++p) { if (!is_complete(p)) break; ++count; }
count_run : PieceAvailability → ℕ → PieceIndex → ℕ
unfolding is_complete
count_run a zero p = 0
count_run a (suc k) p =
    let rest = suc (count_run a k (next p)) in if is_complete a p then rest else 0

unfoldable pub contiguous_from : PieceAvailability → PieceIndex → ℕ
unfolding count_run
contiguous_from a start = count_run a (rounds start (pos a.num_pieces)) start

abbrev pub piece_size : PieceAvailability → PieceIndex → ℕ
piece_size a p = if eqb_ℤ p (sub_ℕ a.num_pieces 1) then a.last_piece_length else a.piece_length

add_run : PieceAvailability → ℕ → PieceIndex → ℤ → ℤ
unfolding is_complete
add_run a zero p total = total
add_run a (suc k) p total =
    let rest = add_run a k (next p) (total +ℤ pos (piece_size a p)) in
    if is_complete a p then rest else total

unfoldable pub contiguous_bytes_from : PieceAvailability → PieceIndex → ℕ → ℤ
unfolding add_run
contiguous_bytes_from a start offset_in_piece =
    if not (is_complete a start)
    then pos 0
    else add_run a (rounds (next start) (pos a.num_pieces)) (next start)
        (sub_ℕ (piece_size a start) offset_in_piece)

-- A quotient of two numbers; with no piece it is 0 / 1.
pub record Ratio : Type 0 where
  pub part : ℕ
  pub whole : ℕ

unfoldable pub progress : PieceAvailability → Ratio
progress a =
    if a.num_pieces == 0
    then record { part = 0; whole = 1 }
    else record { part = a.completed_count; whole = a.num_pieces }
