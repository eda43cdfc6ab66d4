-- ===== src/Common/Decimal.antt =====
-- std::to_string on non-negative numbers, std::stoll and std::stoi, as the C++ standard describes
-- them: white space and one sign are skipped, the longest run of digits is read, what follows is
-- ignored, and `none` is an exception (no digits, or out of range).
use Prim.Native.Nat.{ℕ, zero, suc, ◌+◌, ◌-◌, ◌*◌, ◌/◌, ◌%◌, ◌^◌, ◌≤◌, ◌<◌}
use mathlib.Core.Path.{◌≡◌, refl}
use mathlib.Core.Logic.{◌≢◌}
use mathlib.Core.Bool.{Bool, false, ◌&&◌, ◌||◌}
use mathlib.Core.List.{[], ◌∷◌, ◌++◌}
use mathlib.Core.Option.{Option, none, some}
use native.Mathlib.Omega.{arith}
use seekserve.Common.Tests.{ltb, leb, ◌==◌, if◌then◌else◌}
use seekserve.Common.Lists.{All}
use seekserve.Common.Int.{ℤ, pos, negsuc, sub_ℕ}
use seekserve.Common.Bytes.{Bytes, codes, Lacks}

abbrev pub is_digit : ℕ → Bool
is_digit c = leb b'0' c && leb c b'9'

-- One digit at a time from the right; the fuel is above the number.
emit : ℕ → ℕ → Bytes → Bytes
emit zero n out = out
emit (suc f) n out =
    let rest = emit f (n / 10) ((b'0' + n % 10) ∷ out) in
    if ltb n 10 then (b'0' + n % 10) ∷ out else rest

unfoldable pub to_string : ℕ → Bytes
unfolding emit
to_string n = emit (suc n) n []

unfoldable pub leading_digits : Bytes → Bytes
leading_digits [] = []
leading_digits (c ∷ s) = let rest = leading_digits s in if is_digit c then c ∷ rest else []

unfoldable pub value : ℕ → Bytes → ℕ
value acc [] = acc
value acc (c ∷ s) = value (acc * 10 + (c - b'0')) s

-- isspace in the C locale
skip_spaces : Bytes → Bytes
skip_spaces [] = []
skip_spaces (c ∷ s) =
    let rest = skip_spaces s in if c == b' ' || (leb 9 c && leb c 13) then rest else c ∷ s

plain : ℕ → Bytes → Option ℤ
unfolding value
plain half [] = none
plain half (d ∷ ds) = if ltb (value 0 (d ∷ ds)) half then some (pos (value 0 (d ∷ ds))) else none

negated : ℕ → Bytes → Option ℤ
unfolding value
negated half [] = none
negated half (d ∷ ds) =
    if leb (value 0 (d ∷ ds)) half then some (sub_ℕ 0 (value 0 (d ∷ ds))) else none

signed : ℕ → Bytes → Option ℤ
unfolding plain negated leading_digits
signed half [] = none
signed half (c ∷ s) =
    if c == b'-'
    then negated half (leading_digits s)
    else if c == b'+'
    then plain half (leading_digits s)
    else plain half (leading_digits (c ∷ s))

-- The integer that a text begins with, in the range [-half, half).
unfoldable pub strto : ℕ → Bytes → Option ℤ
unfolding skip_spaces signed
strto half s = signed half (skip_spaces s)

abbrev pub stoll : Bytes → Option ℤ
stoll = strto (2 ^ 63)

abbrev pub stoi : Bytes → Option ℤ
stoi = strto (2 ^ 31)

abbrev pub IsDigit : ℕ → Type 0
IsDigit c = (b'0' ≤ c) × (c ≤ b'9')

-- A text that does not go on with a digit.
abbrev pub NoDigit : Bytes → Type 0
NoDigit [] = Unit
NoDigit (c ∷ s) = is_digit c ≡ false

emit-IsDigit : (f n : ℕ) (out : Bytes) → All IsDigit out → All IsDigit (emit f n out)
unfolding emit
emit-IsDigit zero n out h = h
emit-IsDigit (suc f) n out h = ground (arith, emit-IsDigit f (n / 10) ((b'0' + n % 10) ∷ out))

-- Only digits are printed.
pub to_string-IsDigit : (n : ℕ) → All IsDigit (to_string n)
unfolding to_string
to_string-IsDigit n = emit-IsDigit (suc n) n [] tt

emit-ne-nil : (f n : ℕ) (out : Bytes) → out ≢ [] → emit f n out ≢ []
unfolding emit
emit-ne-nil zero n out h = h
emit-ne-nil (suc f) n out h = ground (arith, emit-ne-nil f (n / 10) ((b'0' + n % 10) ∷ out))

-- At least one digit is printed.
pub to_string-ne-nil : (n : ℕ) → to_string n ≢ []
unfolding to_string emit
to_string-ne-nil n = ground (arith, emit-ne-nil n (n / 10) ((b'0' + n % 10) ∷ []))

value-emit : (f n : ℕ) (out : Bytes) → n < f → value 0 (emit f n out) ≡ value n out
unfolding emit value
value-emit zero n out h = absurd (omega arith)
value-emit (suc f) n out h = ground (arith, value-emit f (n / 10) ((b'0' + n % 10) ∷ out))

-- The digits printed spell the number.
pub value-to_string : (n : ℕ) → value 0 (to_string n) ≡ n
unfolding to_string value
value-to_string n = value-emit (suc n) n [] (omega arith)

pub leading_digits-append :
    (ds g : Bytes) → All IsDigit ds → NoDigit g → leading_digits (ds ++ g) ≡ ds
unfolding leading_digits
leading_digits-append [] [] h k = refl
leading_digits-append [] (c ∷ g) h k = ground arith
leading_digits-append (c ∷ ds) g h k = ground (arith, leading_digits-append ds g h.1 k)

strto-digits :
    (half : ℕ) (ds g : Bytes)
    → All IsDigit ds
    → ds ≢ []
    → NoDigit g
    → value 0 ds < half
    → strto half (ds ++ g) ≡ some (pos (value 0 ds))
unfolding strto
strto-digits half [] g h k m b = absurd (k refl)
strto-digits half (c ∷ ds) g h k m b = ground (arith, leading_digits-append (c ∷ ds) g h m)

-- A printed number is read back, whatever follows that is not a digit.
pub strto-to_string :
    (half n : ℕ) (g : Bytes) → n < half → NoDigit g → strto half (to_string n ++ g) ≡ some (pos n)
strto-to_string half n g b m = rw (
  strto-digits half (to_string n) g (to_string-IsDigit n) (to_string-ne-nil n) m
      (rw value-to_string b),
  value-to_string n,
)

All-IsDigit-Lacks : (c : ℕ) (ds : Bytes) → is_digit c ≡ false → All IsDigit ds → Lacks c ds
All-IsDigit-Lacks c [] e h = tt
All-IsDigit-Lacks c (d ∷ ds) e h = (ground arith, All-IsDigit-Lacks c ds e h.1)

-- No byte but a digit occurs in a printed number.
pub to_string-Lacks : (c n : ℕ) → is_digit c ≡ false → Lacks c (to_string n)
to_string-Lacks c n e = All-IsDigit-Lacks c _ e (to_string-IsDigit n)

to_string_runs : (to_string 0 ≡ codes "0") × (to_string 65536 ≡ codes "65536")
unfolding to_string
to_string_runs = (refl, refl)

stoll_runs :
    (stoll (codes " +12ab") ≡ some (pos 12))
    × (stoll (codes "-7") ≡ some (negsuc 6))
    × (stoll (codes "x") ≡ none)
    × (stoll (codes "9223372036854775808") ≡ none)
unfolding strto
stoll_runs = (refl, refl, refl, refl)
