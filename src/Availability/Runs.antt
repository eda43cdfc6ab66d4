-- ===== src/Availability/Runs.antt =====
-- Spans of pieces, and the run of complete pieces that begins at a piece.
use seekserve.Common.{
  ℕ, zero, suc, ◌+◌, ◌-◌, ◌*◌, ◌≤◌, ◌<◌, ◌≡◌, ◌↔◌, refl, subst, true, false, inl, inr, arith, ◌==◌,
  if◌then◌else◌, Bool-cases,
}
use seekserve.Common.Int.{
  ℤ, pos, negsuc, pos_part, neg_part, sub_ℕ, ◌+ℤ◌, ◌≤ℤ◌, rounds, next, advance, rounds-next,
  advance-parts, advance-rounds, next-parts, +ℤ-pos_parts,
}
use seekserve.Types.{PieceIndex, PieceSpan}
use seekserve.Availability.{
  PieceAvailability, is_complete, all_complete, is_span_complete, count_run, contiguous_from,
  piece_size, add_run, contiguous_bytes_from,
}

all_complete-advance :
    (a : PieceAvailability) (k i : ℕ) (p : PieceIndex)
    → all_complete a k p ≡ true
    → i < k
    → is_complete a (advance i p) ≡ true
unfolding all_complete
all_complete-advance a zero i p h lt = absurd (omega arith)
all_complete-advance a (suc k) zero p h lt = ground arith
all_complete-advance a (suc k) (suc i) p h lt =
    all_complete-advance a k i (next p) (ground arith) (omega arith)

all_complete_intro :
    (a : PieceAvailability) (k : ℕ) (p : PieceIndex)
    → ((i : ℕ) → i < k → is_complete a (advance i p) ≡ true)
    → all_complete a k p ≡ true
unfolding all_complete
all_complete_intro a zero p h = refl
all_complete_intro a (suc k) p h =
    ground
      (arith, h 0 (omega arith), all_complete_intro a k (next p) (λ i lt. h (suc i) (omega arith)))

-- Every piece from the first to the last of the span is complete.
abbrev pub Covers : PieceAvailability → PieceSpan → Type 0
Covers a span = (q : PieceIndex) → span.first ≤ℤ q → q ≤ℤ span.last → is_complete a q ≡ true

-- The loop answers yes exactly when every piece of the span, both ends included, is complete.
pub is_span_complete_iff :
    (a : PieceAvailability) (span : PieceSpan) → (is_span_complete a span ≡ true) ↔ Covers a span
unfolding is_span_complete
is_span_complete_iff a span = (forth, back)
  where
    forth : all_complete a (rounds span.first (next span.last)) span.first ≡ true → Covers a span
    forth h q lo hi =
        subst (λ r. is_complete a r ≡ true) (advance-rounds span.first q lo)
          (all_complete-advance a _ (rounds span.first q) span.first h
            (omega (arith, next-parts span.last)))

    back : Covers a span → all_complete a (rounds span.first (next span.last)) span.first ≡ true
    back h = all_complete_intro a _ span.first λ i lt.
        h (advance i span.first) (omega (arith, advance-parts i span.first))
          (omega (arith, advance-parts i span.first, next-parts span.last))

count_run-advance :
    (a : PieceAvailability) (k i : ℕ) (p : PieceIndex)
    → i < count_run a k p
    → is_complete a (advance i p) ≡ true
unfolding count_run
count_run-advance a zero i p h = absurd (omega arith)
count_run-advance a (suc k) zero p h = ground arith
count_run-advance a (suc k) (suc i) p h = count_run-advance a k i (next p) (ground arith)

out_of_range :
    (a : PieceAvailability) (p : PieceIndex)
    → rounds p (pos a.num_pieces) ≡ 0
    → is_complete a p ≡ false
unfolding is_complete
out_of_range a (negsuc n) h = refl
out_of_range a (pos p) h = ground arith

count_run_end :
    (a : PieceAvailability) (k : ℕ) (p : PieceIndex)
    → rounds p (pos a.num_pieces) ≡ k
    → is_complete a (advance (count_run a k p) p) ≡ false
unfolding count_run
count_run_end a zero p h = out_of_range a p h
count_run_end a (suc k) p h = elim (Bool-cases (is_complete a p)) [
  | inl done ↦
      rw (done, count_run) (count_run_end a k (next p) (rounds-next p (pos a.num_pieces) k h))
  | inr missing ↦ rw (missing, count_run) missing
]

-- The count is the length of the longest run of complete pieces that begins at `start`: all in it
-- are complete, and the piece behind it is not, or there is none.
pub contiguous_from_run :
    (a : PieceAvailability) (start : PieceIndex)
    → ((i : ℕ) → i < contiguous_from a start → is_complete a (advance i start) ≡ true)
      × (is_complete a (advance (contiguous_from a start) start) ≡ false)
unfolding contiguous_from
contiguous_from_run a start = (λ i h. count_run-advance a _ i start h, count_run_end a _ start refl)

-- The bytes of `k` pieces from `s` on, in a torrent whose last piece may be shorter.
abbrev pub run_bytes : PieceAvailability → ℕ → ℕ → ℕ
run_bytes a s k =
    if k == 0
    then 0
    else if (s + k) == a.num_pieces
    then (k - 1) * a.piece_length + a.last_piece_length
    else k * a.piece_length

count_run-le : (a : PieceAvailability) (k : ℕ) (p : PieceIndex) → count_run a k p ≤ k
unfolding count_run
count_run-le a zero p = omega arith
count_run-le a (suc k) p = ground (arith, count_run-le a k (next p))

run_bytes-suc :
    (a : PieceAvailability) (s c : ℕ)
    → s + suc c ≤ a.num_pieces
    → run_bytes a s (suc c) ≡ piece_size a (pos s) + run_bytes a (suc s) c
run_bytes-suc a s zero h = ground arith
run_bytes-suc a s (suc c) h = ground arith

add_run-parts :
    (a : PieceAvailability) (k s : ℕ) (total : ℤ)
    → s + k ≡ a.num_pieces
    → pos_part (add_run a k (pos s) total) + neg_part total
      ≡ neg_part (add_run a k (pos s) total)
        + pos_part total
        + run_bytes a s (count_run a k (pos s))
unfolding add_run count_run
add_run-parts a zero s total h = omega arith
add_run-parts a (suc k) s total h = elim (Bool-cases (is_complete a (pos s))) [
  | inl done ↦
      rw (done, add_run, count_run)
        (omega (
          arith,
          add_run-parts a k (suc s) (total +ℤ pos (piece_size a (pos s))) (omega arith),
          +ℤ-pos_parts total (piece_size a (pos s)),
          run_bytes-suc a s (count_run a k (pos (suc s))) bound,
        ))
  | inr missing ↦ rw (missing, add_run, count_run) (omega arith)
]
  where
    bound : s + suc (count_run a k (pos (suc s))) ≤ a.num_pieces
    bound = omega (arith, count_run-le a k (pos (suc s)))

pub is_complete-lt :
    (a : PieceAvailability) (s : ℕ) → is_complete a (pos s) ≡ true → s < a.num_pieces
unfolding is_complete
is_complete-lt a s h = ground arith

abbrev pieces_after : PieceAvailability → ℕ → ℕ
pieces_after a s = rounds (pos (suc s)) (pos a.num_pieces)

count_run_complete :
    (a : PieceAvailability) (s : ℕ)
    → is_complete a (pos s) ≡ true
    → contiguous_from a (pos s) ≡ suc (count_run a (pieces_after a s) (pos (suc s)))
unfolding contiguous_from
count_run_complete a s h = rw (is_round, count_run, h) refl
  where
    is_round : rounds (pos s) (pos a.num_pieces) ≡ suc (pieces_after a s)
    is_round = omega (arith, is_complete-lt a s h)

add_to_first :
    (x : ℤ) (first rest offset : ℕ)
    → pos_part x + neg_part (sub_ℕ first offset) ≡ neg_part x + pos_part (sub_ℕ first offset) + rest
    → x ≡ sub_ℕ (first + rest) offset
add_to_first x first rest offset h = ground arith

-- The bytes from `offset` into piece `s` to the end of its run of complete pieces: the run's pieces
-- have `piece_length` bytes, the torrent's last one `last_piece_length`. Nothing, if piece `s` is missing.
pub contiguous_bytes_from_run :
    (a : PieceAvailability) (s offset : ℕ)
    → contiguous_bytes_from a (pos s) offset ≡ (
        if is_complete a (pos s)
        then sub_ℕ (run_bytes a s (contiguous_from a (pos s))) offset
        else pos 0)
unfolding contiguous_bytes_from
contiguous_bytes_from_run a s offset = elim (Bool-cases (is_complete a (pos s))) [
  | inr missing ↦ rw (missing, contiguous_bytes_from) refl
  | inl done ↦
      rw
        (
          done,
          contiguous_bytes_from,
          count_run_complete a s done,
          run_bytes-suc a s (count_run a (pieces_after a s) (pos (suc s))) (
              omega
                (arith, is_complete-lt a s done, count_run-le a (pieces_after a s) (pos (suc s)))),
        )
        (add_to_first _ (piece_size a (pos s)) _ offset (
          add_run-parts a (pieces_after a s) (suc s) (sub_ℕ (piece_size a (pos s)) offset)
            (omega (arith, is_complete-lt a s done))))
]
