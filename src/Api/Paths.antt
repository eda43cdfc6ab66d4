-- ===== src/Api/Paths.antt =====
-- control_api_server.cpp: `extract_path` and the regular expressions of `handle_connection`,
-- /api/torrents/([a-fA-F0-9]+)(/.*)? and /files/(\d+)/select, which are matched by hand: the groups end
-- where their class does.
use seekserve.Common.{
  ℕ, ◌≡◌, ◌≢◌, refl, sym, ap, ◌∙◌, Bool, true, not, ◌&&◌, ◌||◌, Option, some, [], ◌∷◌, ◌++◌, ◌==◌,
  arith, if◌then◌else◌, ◌>>◌, guard, take, drop, length, All, All-append, append-nil, drop-append,
  ◌<◌, ◌^◌,
}
use seekserve.Common.Int.{pos}
use seekserve.Common.Bytes.{Bytes, Lacks, codes, bytes_eq, is_empty}
use seekserve.Common.Decimal.{
  leading_digits, leading_digits-append, IsDigit, to_string, to_string-IsDigit, to_string-ne-nil,
  to_string-Lacks, stoi, strto-to_string,
}
use seekserve.Http.Url.{before, is_hex, all_bytes}
use seekserve.Http.Url.Laws.{IsHex, IsId, before-none, is_empty-ne, hex-Lacks}

unfoldable pub extract_path : Bytes → Bytes
unfolding before
extract_path target = before b'?' target

unfoldable pub leading_hex : Bytes → Bytes
leading_hex [] = []
leading_hex (c ∷ s) = let rest = leading_hex s in if is_hex c then c ∷ rest else []

-- `.` is no end of a line.
abbrev pub is_line : Bytes → Bool
is_line s = all_bytes (λ c. not (c == 10 || c == 13)) s

-- (/.*)?
abbrev pub is_sub_path : Bytes → Bool
is_sub_path [] = true
is_sub_path (c ∷ s) = (c == b'/') && is_line s

-- The groups of re_torrent: the id and the rest of the path.
unfoldable pub match_torrent : Bytes → Option (Bytes × Bytes)
unfolding leading_hex all_bytes
match_torrent path = do
  guard (bytes_eq (take 14 path) (codes "/api/torrents/"))
  let rest = drop 14 path
  let id = leading_hex rest
  let sub_path = drop (length id) rest
  guard (not (is_empty id))
  guard (is_sub_path sub_path)
  some (id, sub_path)

-- The group of re_select: the digits.
unfoldable pub match_select : Bytes → Option Bytes
unfolding leading_digits
match_select sub_path = do
  guard (bytes_eq (take 7 sub_path) (codes "/files/"))
  let rest = drop 7 sub_path
  let index = leading_digits rest
  guard (not (is_empty index))
  guard (bytes_eq (drop (length index) rest) (codes "/select"))
  some index

-- The path of a torrent, and what may follow the id in it.
abbrev pub below : Bytes → Bytes → Bytes
below id sub_path = codes "/api/torrents/" ++ (id ++ sub_path)

abbrev pub IsSubPath : Bytes → Type 0
IsSubPath s = is_sub_path s ≡ true

leading_hex-append : (id s : Bytes) → All IsHex id → IsSubPath s → leading_hex (id ++ s) ≡ id
unfolding leading_hex
leading_hex-append [] [] h k = refl
leading_hex-append [] (c ∷ s) h k = ground arith
leading_hex-append (c ∷ id) s h k = ground (arith, leading_hex-append id s h.1 k)

-- A path that is put together is taken apart.
pub match_torrent-below :
    (id s : Bytes) → IsId id → IsSubPath s → match_torrent (below id s) ≡ some (id, s)
unfolding match_torrent bytes_eq
match_torrent-below id s (hex, nonempty) k =
    rw (leading_hex-append id s hex k, drop-append id s, is_empty-ne id nonempty, k) refl

abbrev pub select_path : ℕ → Bytes
select_path n = codes "/files/" ++ (to_string n ++ codes "/select")

pub match_select-select_path : (n : ℕ) → match_select (select_path n) ≡ some (to_string n)
unfolding match_select bytes_eq
match_select-select_path n =
    rw
      (
        leading_digits-append (to_string n) (codes "/select") (to_string-IsDigit n) refl,
        drop-append (to_string n) (codes "/select"),
        is_empty-ne (to_string n) (to_string-ne-nil n),
      )
      refl

pub stoi-index : (n : ℕ) → n < 2 ^ 31 → stoi (to_string n) ≡ some (pos n)
stoi-index n small =
    ap stoi (sym (append-nil (to_string n))) ∙ strto-to_string (2 ^ 31) n [] small tt

-- A literal lacks a byte, which is tested.
pub literal-Lacks : (b : ℕ) (s : Bytes) → all_bytes (λ c. not (c == b)) s ≡ true → Lacks b s
unfolding all_bytes
literal-Lacks b [] e = tt
literal-Lacks b (c ∷ s) e = ground (arith, literal-Lacks b s)

-- Without a query the target is the path.
pub extract_path-below :
    (id s : Bytes) → All IsHex id → Lacks b'?' s → extract_path (below id s) ≡ below id s
unfolding extract_path all_bytes
extract_path-below id s hex no_query = before-none b'?' (below id s) (
    All-append (λ c. c ≢ b'?') (codes "/api/torrents/") (id ++ s)
      (literal-Lacks b'?' (codes "/api/torrents/") refl)
      (All-append (λ c. c ≢ b'?') id s (hex-Lacks b'?' refl id hex) no_query))

pub select_path-Lacks : (n : ℕ) → Lacks b'?' (select_path n)
unfolding all_bytes
select_path-Lacks n =
    All-append (λ c. c ≢ b'?') (codes "/files/") (to_string n ++ codes "/select")
      (literal-Lacks b'?' (codes "/files/") refl)
      (All-append (λ c. c ≢ b'?') (to_string n) (codes "/select") (to_string-Lacks b'?' n refl)
        (literal-Lacks b'?' (codes "/select") refl))

digits-line : (ds s : Bytes) → All IsDigit ds → is_line s ≡ true → is_line (ds ++ s) ≡ true
unfolding all_bytes
digits-line [] s h k = k
digits-line (d ∷ ds) s h k = ground (arith, digits-line ds s h.1 k)

pub select_path-IsSubPath : (n : ℕ) → IsSubPath (select_path n)
unfolding all_bytes
select_path-IsSubPath n = digits-line (to_string n) (codes "/select") (to_string-IsDigit n) refl
