-- ===== src/RangeParser.antt =====
-- seekserve-serve/src/range_parser.cpp: `parse_range_header`.
-- std::string is a list of bytes; an early `return std::nullopt` is `none`, also where std::stoll
-- throws. The 64-bit sums stay in range: they are differences of non-negative numbers.
pub mod Bounds
pub mod RoundTrip
mod Tests
use seekserve.Common.{
  ℕ, suc, ◌+◌, Bool, true, false, not, ◌&&◌, Option, none, some, [], ◌∷◌, ltb, leb, ◌==◌,
  if◌then◌else◌, ◌>>=◌, ◌>>◌, guard, is_some, length, take, drop,
}
use seekserve.Common.Int.{ℤ, pos, ◌-ℤ◌, ltb_ℤ, leb_ℤ}
use seekserve.Common.Bytes.{Bytes, codes, bytes_eq, is_empty, find}
use seekserve.Common.Decimal.{stoll}

-- `end` is inclusive.
pub record ParsedRange : Type 0 where
  pub start : ℤ
  pub end : ℤ

-- while (!s.empty() && s.front() == ' ') s.erase(s.begin());
trim_front : Bytes → Bytes
trim_front [] = []
trim_front (c ∷ s) = let rest = trim_front s in if c == b' ' then rest else c ∷ s

-- while (!s.empty() && s.back() == ' ') s.pop_back();
trim_back : Bytes → Bytes
trim_back [] = []
trim_back (c ∷ s) = let rest = trim_back s in if (c == b' ') && is_empty rest then [] else c ∷ rest

-- Case 1: the last bytes.
suffix_range : Bytes → ℤ → Option ParsedRange
suffix_range right file_size = do
  guard (not (is_empty right))
  suffix ← stoll right
  guard (ltb_ℤ (pos 0) suffix)
  if leb_ℤ file_size suffix
      then some (record { start = pos 0; end = file_size -ℤ pos 1 })
      else some (record { start = file_size -ℤ suffix; end = file_size -ℤ pos 1 })

-- Case 2: from `start` to the end of the file.
open_range : ℤ → ℤ → Option ParsedRange
open_range start file_size = do
  guard (ltb_ℤ start file_size)
  some (record { start = start; end = file_size -ℤ pos 1 })

-- Case 3: both ends given.
closed_range : ℤ → Bytes → ℤ → Option ParsedRange
closed_range start right file_size = do
  end ← stoll right
  guard (leb_ℤ start end)
  guard (ltb_ℤ start file_size)
  some (record { start = start; end = if leb_ℤ file_size end then file_size -ℤ pos 1 else end })

start_range : Bytes → Bytes → ℤ → Option ParsedRange
unfolding open_range closed_range
start_range left right file_size = do
  start ← stoll left
  guard (leb_ℤ (pos 0) start)
  if is_empty right then open_range start file_size else closed_range start right file_size

-- The two parts round the first dash.
split_at_dash : Bytes → ℤ → ℕ → Option ParsedRange
unfolding trim_front trim_back suffix_range start_range
split_at_dash spec file_size dash =
    let left = trim_back (take dash spec) in
    let right = trim_front (drop (suc dash) spec) in
    if is_empty left then suffix_range right file_size else start_range left right file_size

-- What stands behind the prefix.
parse_spec : Bytes → ℤ → Option ParsedRange
unfolding find trim_front trim_back split_at_dash
parse_spec text file_size = do
  guard (not (is_some (find b',' text)))
  let spec = trim_back (trim_front text)
  guard (not (is_empty spec))
  dash ← find b'-' spec
  split_at_dash spec file_size dash

abbrev prefix : Bytes
prefix = codes "bytes="

unfoldable pub parse_range_header : Bytes → ℤ → Option ParsedRange
unfolding bytes_eq parse_spec
parse_range_header header file_size = do
  guard (ltb_ℤ (pos 0) file_size)
  guard (leb 6 (length header))
  guard (bytes_eq (take 6 header) prefix)
  parse_spec (drop 6 header) file_size
