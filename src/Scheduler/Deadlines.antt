-- ===== src/Scheduler/Deadlines.antt =====
-- The two loops of `set_deadlines` against a description without state: the missing pieces of the
-- window, in order, cut at the budget.
use seekserve.Common.{
  ℕ, zero, suc, ◌+◌, ◌-◌, ◌*◌, ◌≡◌, refl, ap, ap₂, ◌∙◌, inl, inr, List, [], ◌∷◌, ◌++◌, map,
  append-nil, append_assoc, arith, ltb, if◌then◌else◌, Bool-cases, length, take, length-append,
}
use seekserve.Common.Int.{pos, ◌+ℤ◌, next}
use seekserve.Types.{PieceIndex}
use seekserve.Availability.{PieceAvailability}
use seekserve.Mapper.{Mapper}
use seekserve.Scheduler.{
  Scheduler, Deadline, set_piece_deadline, Loop, Placed, skips, visit, place, sizes, hot_loop,
  lookahead_loop, place_all, set_deadlines,
}

-- The deadlines of the pieces that a loop of `k` rounds from piece `p` does not skip.
unfoldable pub wanted : PieceAvailability → Loop → ℕ → ℕ → PieceIndex → List Deadline
wanted avail l zero i p = []
wanted avail l (suc k) i p =
    let rest = wanted avail l k (suc i) (next p) in
    if skips avail l p then rest else record { piece = p; ms = l.base_ms + i * l.step_ms } ∷ rest

-- The hot window, and behind it the lookahead.
unfoldable pub wanted_all : Scheduler → PieceAvailability → Mapper → List Deadline
wanted_all s avail mapper =
    wanted avail (hot_loop s mapper) (sizes s).hot_size 0 s.playhead_piece
    ++ wanted avail (lookahead_loop s mapper) (sizes s).lookahead_size 0
        (s.playhead_piece +ℤ pos (sizes s).hot_size)

-- The count is that of the deadlines.
abbrev Counts : Placed → Type 0
Counts s = s.count ≡ length s.deadlines

visit-Counts :
    (avail : PieceAvailability) (l : Loop) (i : ℕ) (p : PieceIndex) (s : Placed)
    → Counts s
    → Counts (visit avail l i p s)
unfolding visit
visit-Counts avail l i p s h = elim (Bool-cases (skips avail l p)) [
  | inl skipped ↦ rw skipped h
  | inr kept ↦ rw kept (
      omega (
        arith,
        length-append {0} s.deadlines (record { piece = p; ms = l.base_ms + i * l.step_ms } ∷ []),
      ))
]

place-Counts :
    (avail : PieceAvailability) (l : Loop) (k i : ℕ) (p : PieceIndex) (s : Placed)
    → Counts s
    → Counts (place avail l k i p s)
unfolding place
place-Counts avail l zero i p s h = h
place-Counts avail l (suc k) i p s h = elim (Bool-cases (ltb s.count l.budget)) [
  | inl room ↦
      rw room (
        place-Counts avail l k (suc i) (next p) (visit avail l i p s)
          (visit-Counts avail l i p s h))
  | inr full ↦ rw full h
]

take-zero {ℓ} : {A : Type ℓ} (n : ℕ) (xs : List A) → n ≡ 0 → take n xs ≡ []
take-zero zero xs h = refl
take-zero (suc n) xs h = absurd (omega arith)

take-suc {ℓ} :
    {A : Type ℓ} (n m : ℕ) (x : A) (xs : List A) → n ≡ suc m → take n (x ∷ xs) ≡ x ∷ take m xs
take-suc n m x xs h = rw h

take-nil {ℓ} : {A : Type ℓ} (n : ℕ) → take {A = A} n [] ≡ []
take-nil zero = refl
take-nil (suc n) = refl

take-split {ℓ} :
    {A : Type ℓ} (n : ℕ) (xs ys : List A)
    → take n xs ++ take (n - length (take n xs)) ys ≡ take n (xs ++ ys)
take-split zero xs ys = refl
take-split (suc n) [] ys = let e : suc n - 0 ≡ suc n = omega arith in rw e
take-split (suc n) (x ∷ xs) ys = rw suc_sub (ap (◌∷◌ x) (take-split n xs ys))
  where
    suc_sub : suc n - suc (length (take n xs)) ≡ n - length (take n xs)
    suc_sub = omega arith

-- A loop appends what it wants, as far as the budget goes.
place-take :
    (avail : PieceAvailability) (l : Loop) (k i : ℕ) (p : PieceIndex) (s : Placed)
    → (place avail l k i p s).deadlines
      ≡ s.deadlines ++ take (l.budget - s.count) (wanted avail l k i p)
unfolding place wanted visit
place-take avail l zero i p s = rw (take-nil (l.budget - s.count), append-nil)
place-take avail l (suc k) i p s = elim (Bool-cases (ltb s.count l.budget)) [
  | inr full ↦ rw (full, take-zero (l.budget - s.count) _ (ground arith), append-nil)
  | inl room ↦ elim (Bool-cases (skips avail l p)) [
    | inl skipped ↦ rw (room, skipped) (place-take avail l k (suc i) (next p) s)
    | inr kept ↦
        rw
          (
            room,
            kept,
            take-suc (l.budget - s.count) (l.budget - (s.count + 1)) _ _ (ground arith),
            place-take avail l k (suc i) (next p) _,
          )
          (append_assoc s.deadlines (record { piece = p; ms = l.base_ms + i * l.step_ms } ∷ []) _)
  ]
]

place_all-take :
    (s : Scheduler) (avail : PieceAvailability) (mapper : Mapper)
    → (place_all s avail mapper).deadlines
      ≡ take s.config.deadline_budget (wanted_all s avail mapper)
unfolding place_all wanted_all
place_all-take s avail mapper =
    place-take avail (lookahead_loop s mapper) (sizes s).lookahead_size 0 ahead hot
    ∙ ap₂ (λ xs n. xs ++ take (budget - n) later) hot_is (hot_count ∙ ap length hot_is)
    ∙ take-split budget now later
  where
    budget : ℕ
    budget = s.config.deadline_budget

    ahead : PieceIndex
    ahead = s.playhead_piece +ℤ pos (sizes s).hot_size

    now : List Deadline
    now = wanted avail (hot_loop s mapper) (sizes s).hot_size 0 s.playhead_piece

    later : List Deadline
    later = wanted avail (lookahead_loop s mapper) (sizes s).lookahead_size 0 ahead

    none_yet : Placed
    none_yet = record { deadlines = []; count = 0 }

    hot : Placed
    hot = place avail (hot_loop s mapper) (sizes s).hot_size 0 s.playhead_piece none_yet

    hot_count : hot.count ≡ length hot.deadlines
    hot_count =
        place-Counts avail (hot_loop s mapper) (sizes s).hot_size 0 s.playhead_piece none_yet refl

    hot_is : hot.deadlines ≡ take budget now
    hot_is =
        place-take avail (hot_loop s mapper) (sizes s).hot_size 0 s.playhead_piece none_yet
        ∙ ap (λ n. take n now) (omega arith)

place_all-Counts :
    (s : Scheduler) (avail : PieceAvailability) (mapper : Mapper)
    → Counts (place_all s avail mapper)
unfolding place_all
place_all-Counts s avail mapper =
    place-Counts avail (lookahead_loop s mapper) (sizes s).lookahead_size 0 _ _
      (place-Counts avail (hot_loop s mapper) (sizes s).hot_size 0 s.playhead_piece _ refl)

-- The deadlines that are set are the missing pieces of the file in the hot window and then in the
-- lookahead, in order, cut at the budget; and `active_deadlines` is their number.
pub set_deadlines-take :
    (s : Scheduler) (avail : PieceAvailability) (mapper : Mapper)
    → let set = take s.config.deadline_budget (wanted_all s avail mapper) in
      ((set_deadlines s avail mapper).1 ≡ map set_piece_deadline set)
      × ((set_deadlines s avail mapper).0 ≡ record s { active_deadlines = length set })
unfolding set_deadlines
set_deadlines-take s avail mapper = (
  rw (place_all-take s avail mapper),
  rw (place_all-Counts s avail mapper, place_all-take s avail mapper),
)
