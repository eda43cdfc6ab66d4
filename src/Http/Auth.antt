-- ===== src/Http/Auth.antt =====
-- seekserve-serve/include/seekserve/auth_utils.hpp: `constant_time_compare`, `extract_token`, and
-- token_auth.cpp: `generate_auth_token`, `validate_auth_token`. Bytes are unsigned here; the sign
-- extension of a negative char does not change which differences are zero.
mod Tests
use seekserve.Common.{
  ℕ, zero, suc, ◌+◌, ◌*◌, ◌/◌, ◌%◌, ◌^◌, ◌<◌, ◌≡◌, ◌↔◌, refl, ap₂, Bool, true, false, not, ◌&&◌,
  Option, none, some, List, [], ◌∷◌, arith, ltb, ◌==◌, ==_iff, if◌then◌else◌, length, take, drop,
  All, max, min, get_or,
}
use seekserve.Common.Bytes.{Bytes, codes, bytes_eq}
use seekserve.Http.Url.{token_value, or_empty}

-- operator^ and operator| on numbers with `w` bits
unfoldable pub bit_xor : ℕ → ℕ → ℕ → ℕ
bit_xor zero a b = 0
bit_xor (suc w) a b = (a % 2 + b % 2) % 2 + 2 * bit_xor w (a / 2) (b / 2)

unfoldable pub bit_or : ℕ → ℕ → ℕ → ℕ
bit_or zero a b = 0
bit_or (suc w) a b = max (a % 2) (b % 2) + 2 * bit_or w (a / 2) (b / 2)

-- The loop of a comparison, with `result` so far; it ends with the left text.
unfoldable pub differences : ℕ → Bytes → Bytes → ℕ
unfolding bit_xor bit_or
differences result [] t = result
differences result (c ∷ s) [] = result
differences result (c ∷ s) (d ∷ t) = differences (bit_or 8 result (bit_xor 8 c d)) s t

unfoldable pub constant_time_compare : Bytes → Bytes → Bool
unfolding differences
constant_time_compare a b = if not (length a == length b) then false else differences 0 a b == 0

unfoldable pub validate_auth_token : Bytes → Bytes → Bool
unfolding differences
validate_auth_token provided expected =
    if not (length provided == length expected) then false else differences 0 provided expected == 0

-- The fields of a request that the server looks at. `target` and the header fields are as sent.
pub data Method : Type 0 where
  get head other : Method

pub record Request : Type 0 where
  pub method : Method
  pub target : Bytes
  pub authorization : Option Bytes
  pub range : Option Bytes
  pub keep_alive : Bool

unfoldable pub bearer : Option Bytes → Option Bytes
unfolding bytes_eq
bearer none = none
bearer (some val) =
    if ltb 7 (length val) && bytes_eq (take 7 val) (codes "Bearer ")
    then some (drop 7 val)
    else none

unfoldable pub extract_token : Request → Bytes
unfolding bearer token_value
extract_token req = elim (bearer req.authorization) [
  | some token ↦ token
  | none ↦ or_empty (token_value req.target)
]

abbrev pub charset : Bytes
charset = codes "0123456789abcdefghijklmnopqrstuvwxyz"

-- The generator's draws are a parameter: each is at most sizeof(charset) - 2.
unfoldable pub generate_auth_token : ℕ → (ℕ → ℕ) → Bytes
generate_auth_token zero dist = []
generate_auth_token (suc n) dist =
    get_or charset (dist 0) 0 ∷ generate_auth_token n λ i. dist (suc i)

bit_xor-zero : (w a b : ℕ) → a < 2 ^ w → b < 2 ^ w → (bit_xor w a b ≡ 0) ↔ (a ≡ b)
unfolding bit_xor
bit_xor-zero zero a b ha hb = ground arith
bit_xor-zero (suc w) a b ha hb =
    let step = bit_xor-zero w (a / 2) (b / 2) (omega arith) (omega arith) in
    (λ e. omega (arith, step.0 (omega arith)), λ e. omega (arith, step.1 (omega arith)))

bit_or-zero : (w a b : ℕ) → a < 2 ^ w → b < 2 ^ w → (bit_or w a b ≡ 0) ↔ ((a ≡ 0) × (b ≡ 0))
unfolding bit_or
bit_or-zero zero a b ha hb = ground arith
bit_or-zero (suc w) a b ha hb =
    let step = bit_or-zero w (a / 2) (b / 2) (omega arith) (omega arith) in
    (
      λ e. let (p, q) = step.0 (omega arith) in (omega arith, omega arith),
      λ (p, q). omega (arith, step.1 (omega arith, omega arith)),
    )

bit_xor-bound : (w a b : ℕ) → bit_xor w a b < 2 ^ w
unfolding bit_xor
bit_xor-bound zero a b = omega arith
bit_xor-bound (suc w) a b = omega (arith, bit_xor-bound w (a / 2) (b / 2))

bit_or-bound : (w a b : ℕ) → bit_or w a b < 2 ^ w
unfolding bit_or
bit_or-bound zero a b = omega arith
bit_or-bound (suc w) a b = omega (arith, bit_or-bound w (a / 2) (b / 2))

abbrev pub IsByte : ℕ → Type 0
IsByte c = c < 256

differences-zero :
    (r : ℕ) (s t : Bytes)
    → r < 256
    → All IsByte s
    → All IsByte t
    → length s ≡ length t
    → (differences r s t ≡ 0) ↔ ((r ≡ 0) × (s ≡ t))
unfolding differences
differences-zero r [] [] hr hs ht e = (λ p. (p, refl), λ (p, q). p)
differences-zero r [] (d ∷ t) hr hs ht e = absurd (omega arith)
differences-zero r (c ∷ s) [] hr hs ht e = absurd (omega arith)
differences-zero r (c ∷ s) (d ∷ t) hr (hc, hs) (hd, ht) e =
    let tail =
      differences-zero (bit_or 8 r (bit_xor 8 c d)) s t (bit_or-bound 8 r (bit_xor 8 c d)) hs ht
        (omega (arith, e)) in
    let both = bit_or-zero 8 r (bit_xor 8 c d) hr (bit_xor-bound 8 c d) in
    let head = bit_xor-zero 8 c d hc hd in
    (
      λ z.
          let (none_so_far, same) = tail.0 z in
          let (r_zero, x_zero) = both.0 none_so_far in
          (r_zero, ap₂ (λ (x : ℕ) (xs : Bytes). x ∷ xs) (head.0 x_zero) same),
      λ (r_zero, same). tail.1 (both.1 (r_zero, head.1 (head_of same)), tail_of same),
    )
  where
    head_of : ◌≡◌ {A = Bytes} (c ∷ s) (d ∷ t) → c ≡ d
    head_of q = cc

    tail_of : ◌≡◌ {A = Bytes} (c ∷ s) (d ∷ t) → s ≡ t
    tail_of q = cc

-- The comparison of two texts of bytes says true exactly when the texts are equal.
pub constant_time_compare_iff :
    (s t : Bytes) → All IsByte s → All IsByte t → (constant_time_compare s t ≡ true) ↔ (s ≡ t)
unfolding constant_time_compare
constant_time_compare_iff s t hs ht = ground (arith, differences-zero 0 s t (omega arith) hs ht)
