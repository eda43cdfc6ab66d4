-- ===== src/Availability/Threads.antt =====
-- `mark_complete` run by any number of threads at once: the compare_exchange and the fetch_add are
-- two atomic steps, and other threads may move between them.
use seekserve.Common.{
  ℕ, suc, ◌+◌, ◌≤◌, ◌<◌, ◌≡◌, refl, true, false, arith, get_or, set, length, length-set, leb,
}
use seekserve.Common.Int.{pos}
use seekserve.Availability.{PieceAvailability, mark_complete}
use seekserve.Availability.Marks.{count_true, count_true-set, count_true-le-length, IsValid}

-- `pending` counts the threads that have set a flag and not yet added to the counter.
pub record Shared : Type 0 where
  pub index : PieceAvailability
  pub pending : ℕ

abbrev claimed : PieceAvailability → ℕ → PieceAvailability
claimed a p = record a { completed = set a.completed p true }

abbrev counted_up : PieceAvailability → PieceAvailability
counted_up a = record a { completed_count = a.completed_count + 1 }

-- One atomic step of some thread. A call out of range makes no step, and neither does an exchange
-- that finds the flag set.
pub data Step (s : Shared) : Shared → Type 0 where
  claim :
      (p : ℕ)
      → p < s.index.num_pieces
      → get_or s.index.completed p true ≡ false
      → Step s (record { index = claimed s.index p; pending = suc s.pending })
  count : (n : ℕ) → s.pending ≡ suc n → Step s (record { index = counted_up s.index; pending = n })

pub data Reach (s : Shared) : Shared → Type 0 where
  here : Reach s s
  after : {t u : Shared} → Reach s t → Step t u → Reach s u

-- The counter is behind the flags by the threads that have not added yet.
pub record Inv (s : Shared) : Type 0 where
  pub one_flag_each : length s.index.completed ≡ s.index.num_pieces
  pub behind : s.index.completed_count + s.pending ≡ count_true s.index.completed

Step-Inv : {s t : Shared} → Step s t → Inv s → Inv t
Step-Inv {s} (claim p h e) v =
    ground (arith, length-set s.index.completed p true, count_true-set s.index.completed p e)
Step-Inv (count n e) v = ground arith

Reach-Inv : {s t : Shared} → Inv s → Reach s t → Inv t
Reach-Inv v here = v
Reach-Inv v (after r st) = Step-Inv st (Reach-Inv v r)

-- However the threads interleave, the counter never exceeds the number of pieces, and with the
-- threads that are between their two steps it makes up the number of flags that are set.
pub Reach-counter :
    {s t : Shared}
    → IsValid s.index
    → s.pending ≡ 0
    → Reach s t
    → (t.index.completed_count ≤ t.index.num_pieces)
      × (t.index.completed_count + t.pending ≡ count_true t.index.completed)
Reach-counter {s} {t} v e r =
    let inv : Inv t =
      Reach-Inv (record { one_flag_each = v.one_flag_each; behind = omega (arith, v.counted) }) r in
    (
      omega (arith, inv.behind, inv.one_flag_each, count_true-le-length t.index.completed),
      inv.behind,
    )

-- The sequential call is one of the interleavings: its two steps with nothing in between.
pub mark_complete-Reach :
    (a : PieceAvailability) (p : ℕ)
    → p < a.num_pieces
    → get_or a.completed p true ≡ false
    → Reach
        (record { index = a; pending = 0 })
        (record { index = mark_complete a (pos p); pending = 0 })
unfolding mark_complete
mark_complete-Reach a p h e =
    let steps : Reach (record { index = a; pending = 0 })
        (record { index = counted_up (claimed a p); pending = 0 }) =
      after (after here (claim p h e)) (count 0 refl) in
    rw (le→ltb_false' h, e) steps
  where
    le→ltb_false' : p < a.num_pieces → leb a.num_pieces p ≡ false
    le→ltb_false' k = ground arith
