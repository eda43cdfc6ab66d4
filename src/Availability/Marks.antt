-- ===== src/Availability/Marks.antt =====
-- Which pieces are complete after `reset` and `mark_complete`, and what the counter says.
use seekserve.Common.{
  ℕ, zero, suc, ◌≤◌, ◌<◌, ◌≡◌, ◌↔◌, refl, Bool, true, false, ◌&&◌, List, [], ◌∷◌, arith, ◌==◌,
  if◌then◌else◌, length, get_or, set, replicate, length-set, length-replicate,
}
use seekserve.Common.Int.{pos, negsuc, eqb_ℤ, leb_ℤ, ltb_ℤ}
use seekserve.Types.{PieceIndex}
use seekserve.Availability.{PieceAvailability, reset, mark_complete, is_complete, progress}

abbrev pub count_true : List Bool → ℕ
count_true [] = 0
count_true (true ∷ bs) = suc (count_true bs)
count_true (false ∷ bs) = count_true bs

-- One flag for each piece, and a counter that counts the flags that are set.
pub record IsValid (a : PieceAvailability) : Type 0 where
  pub one_flag_each : length a.completed ≡ a.num_pieces
  pub counted : a.completed_count ≡ count_true a.completed

count_true-replicate : (n : ℕ) → count_true (replicate n false) ≡ 0
count_true-replicate zero = refl
count_true-replicate (suc n) = count_true-replicate n

pub count_true-set :
    (bs : List Bool) (i : ℕ)
    → get_or bs i true ≡ false
    → count_true (set bs i true) ≡ suc (count_true bs)
count_true-set [] i h = cc
count_true-set (true ∷ bs) zero h = cc
count_true-set (false ∷ bs) zero h = refl
count_true-set (true ∷ bs) (suc i) h = omega (arith, count_true-set bs i h)
count_true-set (false ∷ bs) (suc i) h = count_true-set bs i h

pub count_true-le-length : (bs : List Bool) → count_true bs ≤ length bs
count_true-le-length [] = omega arith
count_true-le-length (true ∷ bs) = omega (arith, count_true-le-length bs)
count_true-le-length (false ∷ bs) = omega (arith, count_true-le-length bs)

pub reset-IsValid : (n len last : ℕ) (a : PieceAvailability) → IsValid (reset n len last a)
unfolding reset
reset-IsValid n len last a = record {
  one_flag_each = length-replicate n false;
  counted = omega (arith, count_true-replicate n);
}

-- Marking a piece, also one out of range or marked before, keeps the flags and the counter in step.
pub mark_complete-IsValid :
    (a : PieceAvailability) (p : PieceIndex) → IsValid a → IsValid (mark_complete a p)
unfolding mark_complete
mark_complete-IsValid a (negsuc n) v = v
mark_complete-IsValid a (pos p) v =
    ground (arith, length-set a.completed p true, count_true-set a.completed p)

get_or-replicate : (n i : ℕ) → get_or (replicate n false) i false ≡ false
get_or-replicate zero i = refl
get_or-replicate (suc n) zero = refl
get_or-replicate (suc n) (suc i) = get_or-replicate n i

-- After a reset no piece is complete.
pub is_complete-reset :
    (n len last : ℕ) (a : PieceAvailability) (q : PieceIndex)
    → is_complete (reset n len last a) q ≡ false
unfolding is_complete reset
is_complete-reset n len last a (negsuc m) = refl
is_complete-reset n len last a (pos q) = ground (arith, get_or-replicate n q)

get_or-default : (bs : List Bool) (i : ℕ) → i < length bs → get_or bs i true ≡ get_or bs i false
get_or-default [] i h = absurd (omega arith)
get_or-default (b ∷ bs) zero h = refl
get_or-default (b ∷ bs) (suc i) h = get_or-default bs i (omega arith)

get_or-set :
    (bs : List Bool) (i j : ℕ)
    → i < length bs
    → get_or (set bs i true) j false ≡ (if i == j then true else get_or bs j false)
get_or-set [] i j h = absurd (omega arith)
get_or-set (b ∷ bs) zero zero h = ground arith
get_or-set (b ∷ bs) zero (suc j) h = ground arith
get_or-set (b ∷ bs) (suc i) zero h = ground arith
get_or-set (b ∷ bs) (suc i) (suc j) h = ground (arith, get_or-set bs i j (omega arith))

abbrev pub in_range : PieceAvailability → PieceIndex → Bool
in_range a p = leb_ℤ (pos 0) p && ltb_ℤ p (pos a.num_pieces)

-- Marking a piece that exists makes it complete; every other piece, and every piece after a call
-- out of range, is as before.
pub is_complete-mark_complete :
    (a : PieceAvailability) (p q : PieceIndex)
    → IsValid a
    → is_complete (mark_complete a p) q
      ≡ (if in_range a p && eqb_ℤ p q then true else is_complete a q)
unfolding is_complete mark_complete
is_complete-mark_complete a (negsuc n) q v = ground arith
is_complete-mark_complete a (pos p) (negsuc m) v = ground arith
is_complete-mark_complete a (pos p) (pos q) v =
    ground (arith, get_or-set a.completed p q, get_or-default a.completed p)

count_true_full :
    (bs : List Bool) (i : ℕ) → count_true bs ≡ length bs → i < length bs → get_or bs i false ≡ true
count_true_full [] i e h = absurd (omega arith)
count_true_full (true ∷ bs) zero e h = refl
count_true_full (false ∷ bs) zero e h = absurd (omega (arith, count_true-le-length bs))
count_true_full (true ∷ bs) (suc i) e h = count_true_full bs i (omega arith) (omega arith)
count_true_full (false ∷ bs) (suc i) e h = absurd (omega (arith, count_true-le-length bs))

full_count_true :
    (bs : List Bool)
    → ((i : ℕ) → i < length bs → get_or bs i false ≡ true)
    → count_true bs ≡ length bs
full_count_true [] h = refl
full_count_true (true ∷ bs) h = omega (arith, full_count_true bs (λ i k. h (suc i) (omega arith)))
full_count_true (false ∷ bs) h = ground (arith, h 0 (omega arith))

-- Every piece of the torrent is complete.
abbrev pub IsFull : PieceAvailability → Type 0
IsFull a = (p : ℕ) → p < a.num_pieces → is_complete a (pos p) ≡ true

-- If there is a piece, the progress is at most one, and it is one exactly when every piece is
-- complete.
pub progress-IsFull :
    (a : PieceAvailability)
    → IsValid a
    → 0 < a.num_pieces
    → ((progress a).part ≤ (progress a).whole)
      × (((progress a).part ≡ (progress a).whole) ↔ IsFull a)
unfolding progress is_complete
progress-IsFull a v h = (ground (arith, count_true-le-length a.completed), (forth, back))
  where
    forth : (progress a).part ≡ (progress a).whole → IsFull a
    forth e p k = ground (arith, count_true_full a.completed p)

    back : IsFull a → (progress a).part ≡ (progress a).whole
    back all =
        let full : count_true a.completed ≡ length a.completed =
          full_count_true a.completed (λ i k. ground (arith, all i)) in
        ground arith

get_or-set_mono :
    (bs : List Bool) (i j : ℕ) → get_or bs j false ≡ true → get_or (set bs i true) j false ≡ true
get_or-set_mono [] i j h = h
get_or-set_mono (b ∷ bs) zero zero h = refl
get_or-set_mono (b ∷ bs) zero (suc j) h = h
get_or-set_mono (b ∷ bs) (suc i) zero h = h
get_or-set_mono (b ∷ bs) (suc i) (suc j) h = get_or-set_mono bs i j h

-- A complete piece stays complete, whichever piece is marked.
pub is_complete_mono :
    (a : PieceAvailability) (p q : PieceIndex)
    → is_complete a q ≡ true
    → is_complete (mark_complete a p) q ≡ true
unfolding is_complete mark_complete
is_complete_mono a (negsuc n) q h = h
is_complete_mono a (pos p) (negsuc m) h = cc
is_complete_mono a (pos p) (pos q) h = ground (arith, get_or-set_mono a.completed p q)
