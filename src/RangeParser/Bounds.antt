-- ===== src/RangeParser/Bounds.antt =====
-- What a range that `parse_range_header` returns satisfies.
use seekserve.Common.{
  ◌≡◌, some, inl, inr, arith, not, if◌then◌else◌, leb, Bool-cases, bind-eq-some, guard-eq-some,
  is_some, length, take, drop, suc, ◌>>◌, guard,
}
use seekserve.Common.Int.{ℤ, pos, ◌≤ℤ◌, ◌<ℤ◌, ltb_ℤ, leb_ℤ}
use seekserve.Common.Bytes.{Bytes, bytes_eq, is_empty, find}
use seekserve.Common.Decimal.{stoll}
use seekserve.RangeParser.{
  ParsedRange, suffix_range, open_range, closed_range, start_range, split_at_dash, parse_spec,
  prefix, trim_front, trim_back, parse_range_header,
}

-- The bytes from `start` to `end` lie in a file of this size.
pub record IsWithin (r : ParsedRange) (file_size : ℤ) : Type 0 where
  pub start_nonneg : pos 0 ≤ℤ r.start
  pub ordered : r.start ≤ℤ r.end
  pub end_below : r.end <ℤ file_size

suffix_range-IsWithin :
    (right : Bytes) (file_size : ℤ) {r : ParsedRange}
    → pos 0 <ℤ file_size
    → suffix_range right file_size ≡ some r
    → IsWithin r file_size
unfolding suffix_range
suffix_range-IsWithin right file_size h e = ground arith

open_range-IsWithin :
    (start file_size : ℤ) {r : ParsedRange}
    → pos 0 <ℤ file_size
    → pos 0 ≤ℤ start
    → open_range start file_size ≡ some r
    → IsWithin r file_size
unfolding open_range
open_range-IsWithin start file_size h k e = ground arith

closed_range-IsWithin :
    (start : ℤ) (right : Bytes) (file_size : ℤ) {r : ParsedRange}
    → pos 0 <ℤ file_size
    → pos 0 ≤ℤ start
    → closed_range start right file_size ≡ some r
    → IsWithin r file_size
unfolding closed_range
closed_range-IsWithin start right file_size h k e = ground arith

start_range-IsWithin :
    (left right : Bytes) (file_size : ℤ) {r : ParsedRange}
    → pos 0 <ℤ file_size
    → start_range left right file_size ≡ some r
    → IsWithin r file_size
unfolding start_range
start_range-IsWithin left right file_size {r} h e =
    let (start, read, e1) =
      bind-eq-some (stoll left)
        (λ a. do
          guard (leb_ℤ (pos 0) a)
          if is_empty right then open_range a file_size else closed_range a right file_size)
        e in
    let (nonneg, e2) = guard-eq-some (leb_ℤ (pos 0) start) _ e1 in
    elim (Bool-cases (is_empty right)) [
      | inl none_given ↦ open_range-IsWithin start file_size h (ground arith) (rw none_given at e2)
      | inr given ↦ closed_range-IsWithin start right file_size h (ground arith) (rw given at e2)
    ]

parse_spec-IsWithin :
    (text : Bytes) (file_size : ℤ) {r : ParsedRange}
    → pos 0 <ℤ file_size
    → parse_spec text file_size ≡ some r
    → IsWithin r file_size
unfolding parse_spec
parse_spec-IsWithin text file_size {r} h e =
    let spec = trim_back (trim_front text) in
    let (single, e1) = guard-eq-some (not (is_some (find b',' text))) _ e in
    let (filled, e2) = guard-eq-some (not (is_empty spec)) _ e1 in
    let (dash, found, e3) = bind-eq-some (find b'-' spec) (split_at_dash spec file_size) e2 in
    let left = trim_back (take dash spec) in
    let right = trim_front (drop (suc dash) spec) in
    elim (Bool-cases (is_empty left)) [
      | inl suffix ↦ suffix_range-IsWithin right file_size h (rw suffix at e3)
      | inr numbered ↦ start_range-IsWithin left right file_size h (rw numbered at e3)
    ]

-- Every range that is returned is a non-empty run of bytes inside the file: the start is not
-- negative, the end is not before the start, and the end is below the size.
pub parse_range_header-IsWithin :
    (header : Bytes) (file_size : ℤ) {r : ParsedRange}
    → parse_range_header header file_size ≡ some r
    → IsWithin r file_size
unfolding parse_range_header
parse_range_header-IsWithin header file_size {r} e =
    let (sized, e1) = guard-eq-some (ltb_ℤ (pos 0) file_size) _ e in
    let (long, e2) = guard-eq-some (leb 6 (length header)) _ e1 in
    let (prefixed, e3) = guard-eq-some (bytes_eq (take 6 header) prefix) _ e2 in
    parse_spec-IsWithin (drop 6 header) file_size (ground arith) e3
