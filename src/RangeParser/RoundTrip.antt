-- ===== src/RangeParser/RoundTrip.antt =====
-- The header forms of RFC 7233, printed, and what `parse_range_header` makes of them.
use seekserve.Common.{
  ℕ, zero, suc, ◌-◌, ◌^◌, ◌<◌, ◌≡◌, ◌≢◌, refl, true, false, ◌&&◌, Option, none, some, [], ◌∷◌, ◌++◌,
  append-nil, arith, ltb, leb, if◌then◌else◌, is_some, length, drop, take-append, All, All-append,
  min,
}
use seekserve.Common.Int.{ℤ, pos}
use seekserve.Common.Bytes.{Bytes, is_empty, find, Lacks}
use seekserve.Common.Decimal.{
  to_string, NoDigit, strto-to_string, to_string-ne-nil, to_string-Lacks,
}
use seekserve.RangeParser.{
  ParsedRange, trim_front, trim_back, suffix_range, open_range, closed_range, start_range,
  parse_spec, prefix, parse_range_header,
}

-- byte-range-spec and suffix-byte-range-spec of RFC 7233, section 2.1.
pub data RangeSpec : Type 0 where
  closed : ℕ → ℕ → RangeSpec
  from : ℕ → RangeSpec
  last_bytes : ℕ → RangeSpec

abbrev pub print_spec : RangeSpec → Bytes
print_spec (closed a b) = to_string a ++ (b'-' ∷ to_string b)
print_spec (from a) = to_string a ++ (b'-' ∷ [])
print_spec (last_bytes n) = b'-' ∷ to_string n

abbrev pub print : RangeSpec → Bytes
print s = prefix ++ print_spec s

abbrev range : ℕ → ℕ → Option ParsedRange
range a b = some (record { start = pos a; end = pos b })

-- The bytes that a specification selects from a file with `n` bytes; `none` is unsatisfiable.
abbrev pub select : RangeSpec → ℕ → Option ParsedRange
select (closed a b) n = if leb a b && ltb a n then range a (min b (n - 1)) else none
select (from a) n = if ltb a n then range a (n - 1) else none
select (last_bytes k) n = if ltb 0 k && ltb 0 n then range (n - k) (n - 1) else none

-- The numbers fit std::stoll.
abbrev pub Fits : RangeSpec → Type 0
Fits (closed a b) = (a < 2 ^ 63) × (b < 2 ^ 63)
Fits (from a) = a < 2 ^ 63
Fits (last_bytes k) = k < 2 ^ 63

find-none : (c : ℕ) (s : Bytes) → Lacks c s → find c s ≡ none
unfolding find
find-none c [] h = refl
find-none c (d ∷ s) h = ground (arith, find-none c s h.1)

find-append : (c : ℕ) (s t : Bytes) → Lacks c s → find c (s ++ (c ∷ t)) ≡ some (length s)
unfolding find
find-append c [] t h = ground arith
find-append c (d ∷ s) t h = ground (arith, find-append c s t h.1)

trim_front-Lacks : (s : Bytes) → Lacks b' ' s → trim_front s ≡ s
unfolding trim_front
trim_front-Lacks [] h = refl
trim_front-Lacks (c ∷ s) h = ground arith

trim_back-Lacks : (s : Bytes) → Lacks b' ' s → trim_back s ≡ s
unfolding trim_back
trim_back-Lacks [] h = refl
trim_back-Lacks (c ∷ s) h = ground (arith, trim_back-Lacks s h.1)

drop-suc : (s : Bytes) (c : ℕ) (t : Bytes) → drop (suc (length s)) (s ++ (c ∷ t)) ≡ t
drop-suc [] c t = refl
drop-suc (d ∷ s) c t = drop-suc s c t

is_empty-append : (l r : Bytes) (c : ℕ) → is_empty (l ++ (c ∷ r)) ≡ false
is_empty-append [] r c = refl
is_empty-append (d ∷ l) r c = refl

parse_range_header-prefix :
    (t : Bytes) (n : ℕ) → 0 < n → parse_range_header (prefix ++ t) (pos n) ≡ parse_spec t (pos n)
unfolding parse_range_header
parse_range_header-prefix t n h = ground arith

-- A text with no space or comma is split at its first dash.
parse_spec-split :
    (l r : Bytes) (file_size : ℤ)
    → Lacks b',' (l ++ (b'-' ∷ r))
    → Lacks b' ' l
    → Lacks b' ' r
    → Lacks b'-' l
    → parse_spec (l ++ (b'-' ∷ r)) file_size
      ≡ (if is_empty l then suffix_range r file_size else start_range l r file_size)
unfolding parse_spec
parse_spec-split l r file_size no_comma l_tight r_tight no_dash = rw (
  find-none b',' _ no_comma,
  trim_front-Lacks (l ++ (b'-' ∷ r)) tight,
  trim_back-Lacks (l ++ (b'-' ∷ r)) tight,
  is_empty-append l r b'-',
  find-append b'-' l r no_dash,
  take-append l (b'-' ∷ r),
  drop-suc l b'-' r,
  trim_back-Lacks l l_tight,
  trim_front-Lacks r r_tight,
)
  where
    tight : Lacks b' ' (l ++ (b'-' ∷ r))
    tight = All-append (λ c. c ≢ b' ') l (b'-' ∷ r) l_tight (omega arith, r_tight)

-- Bytes that are no space, comma or dash.
abbrev pub IsPlain : Bytes → Type 0
IsPlain = All (λ c. (c ≢ b' ') × (c ≢ b',') × (c ≢ b'-'))

plain-Lacks : (s : Bytes) → IsPlain s → Lacks b' ' s × Lacks b',' s × Lacks b'-' s
plain-Lacks [] h = (tt, tt, tt)
plain-Lacks (c ∷ s) h = let (a, b, d) = plain-Lacks s h.1 in ground arith

digits-IsPlain : (n : ℕ) (g : Bytes) → IsPlain g → IsPlain (to_string n ++ g)
digits-IsPlain n g h =
    All-append (λ c. (c ≢ b' ') × (c ≢ b',') × (c ≢ b'-')) (to_string n) g
      (collect (to_string n) (to_string-Lacks b' ' n refl) (to_string-Lacks b',' n refl)
        (to_string-Lacks b'-' n refl))
      h
  where
    collect : (s : Bytes) → Lacks b' ' s → Lacks b',' s → Lacks b'-' s → IsPlain s
    collect [] h h' h'' = tt
    collect (c ∷ s) h h' h'' = ((h.0, h'.0, h''.0), collect s h.1 h'.1 h''.1)

to_string-is_empty : (n : ℕ) (g : Bytes) → is_empty (to_string n ++ g) ≡ false
to_string-is_empty n g = go (to_string n) (to_string-ne-nil n)
  where
    go : (s : Bytes) → s ≢ [] → is_empty (s ++ g) ≡ false
    go [] h = absurd (h refl)
    go (c ∷ s) h = refl

-- The header is split into its two plain parts, whatever they hold.
parse-parts :
    (l r : Bytes) (n : ℕ)
    → 0 < n
    → IsPlain l
    → IsPlain r
    → parse_range_header (prefix ++ (l ++ (b'-' ∷ r))) (pos n)
      ≡ (if is_empty l then suffix_range r (pos n) else start_range l r (pos n))
parse-parts l r n h hl hr =
    let (l_tight, l_comma, l_dash) = plain-Lacks l hl in
    let (r_tight, r_comma, r_dash) = plain-Lacks r hr in
    rw (
      parse_range_header-prefix (l ++ (b'-' ∷ r)) n h,
      parse_spec-split l r (pos n)
          (All-append (λ c. c ≢ b',') l (b'-' ∷ r) l_comma (omega arith, r_comma)) l_tight r_tight
          l_dash,
    )

parse_empty_file : (header : Bytes) → parse_range_header header (pos 0) ≡ none
unfolding parse_range_header
parse_empty_file header = refl

module _ (a b n : ℕ) (g h : Bytes) (a_fits : a < 2 ^ 63) (b_fits : b < 2 ^ 63) (g_stops : NoDigit g)
    (h_stops : NoDigit h) where
  start_range-closed :
      start_range (to_string a ++ g) (to_string b ++ h) (pos n) ≡ select (closed a b) n
  unfolding start_range closed_range
  start_range-closed =
      rw
        (
          strto-to_string (2 ^ 63) a g a_fits g_stops,
          to_string-is_empty b h,
          strto-to_string (2 ^ 63) b h b_fits h_stops,
        )
        (ground arith)

start_range-from :
    (a n : ℕ) → a < 2 ^ 63 → start_range (to_string a ++ []) [] (pos n) ≡ select (from a) n
unfolding start_range open_range
start_range-from a n fits = rw (strto-to_string (2 ^ 63) a [] fits tt) (ground arith)

suffix_range-last_bytes :
    (k n : ℕ)
    → k < 2 ^ 63
    → 0 < n
    → suffix_range (to_string k ++ []) (pos n) ≡ select (last_bytes k) n
unfolding suffix_range
suffix_range-last_bytes k n fits h =
    rw (to_string-is_empty k [], strto-to_string (2 ^ 63) k [] fits tt) (ground arith)

-- What stands behind the digits of the two numbers is ignored, as std::stoll ignores it: a header
-- with such text in it is no byte range of RFC 7233, and selects what the two numbers select.
parse-print_trailing :
    (a b n : ℕ) (g h : Bytes)
    → a < 2 ^ 63
    → b < 2 ^ 63
    → NoDigit g
    → NoDigit h
    → IsPlain g
    → IsPlain h
    → parse_range_header (prefix ++ ((to_string a ++ g) ++ (b'-' ∷ (to_string b ++ h)))) (pos n)
      ≡ select (closed a b) n
parse-print_trailing a b zero g h _ _ _ _ _ _ = rw parse_empty_file (ground arith)
parse-print_trailing a b (suc n) g h fa fb sg sh pg ph =
    rw
      (
        parse-parts (to_string a ++ g) (to_string b ++ h) (suc n) (omega arith)
            (digits-IsPlain a g pg) (digits-IsPlain b h ph),
        to_string-is_empty a g,
      )
      (start_range-closed a b (suc n) g h fa fb sg sh)

parse-from :
    (a n : ℕ)
    → a < 2 ^ 63
    → parse_range_header (prefix ++ ((to_string a ++ []) ++ (b'-' ∷ []))) (pos n)
      ≡ select (from a) n
parse-from a zero h = rw parse_empty_file (ground arith)
parse-from a (suc n) h =
    rw
      (
        parse-parts (to_string a ++ []) [] (suc n) (omega arith) (digits-IsPlain a [] tt) tt,
        to_string-is_empty a [],
      )
      (start_range-from a (suc n) h)

parse-last_bytes :
    (k n : ℕ)
    → k < 2 ^ 63
    → parse_range_header (prefix ++ (b'-' ∷ (to_string k ++ []))) (pos n) ≡ select (last_bytes k) n
parse-last_bytes k zero h = rw parse_empty_file (ground arith)
parse-last_bytes k (suc n) h =
    rw (parse-parts [] (to_string k ++ []) (suc n) (omega arith) tt (digits-IsPlain k [] tt))
      (suffix_range-last_bytes k (suc n) h (omega arith))

-- Each of the three forms of RFC 7233, with numbers below 2^63, is read as the bytes that it selects
-- from a file of the given size, and refused exactly when it selects none.
pub parse-print :
    (s : RangeSpec) (n : ℕ) → Fits s → parse_range_header (print s) (pos n) ≡ select s n
parse-print (closed a b) n h =
    rw (append-nil (to_string a), append-nil (to_string b)) at
      (parse-print_trailing a b n [] [] h.0 h.1 tt tt tt tt)
parse-print (from a) n h = rw append-nil at (parse-from a n h)
parse-print (last_bytes k) n h = rw append-nil at (parse-last_bytes k n h)

find-here : (c : ℕ) (s t : Bytes) → is_some (find c (s ++ (c ∷ t))) ≡ true
unfolding find
find-here c [] t = ground arith
find-here c (d ∷ s) t = ground (arith, find-here c s t)

-- A list of ranges is refused: a comma behind the prefix makes the header invalid, for every size.
pub parse_multi_range :
    (s t : Bytes) (file_size : ℤ)
    → parse_range_header (prefix ++ (s ++ (b',' ∷ t))) file_size ≡ none
unfolding parse_range_header parse_spec
parse_multi_range s t file_size = ground (arith, find-here b',' s t)
