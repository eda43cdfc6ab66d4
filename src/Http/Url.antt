-- ===== src/Http/Url.antt =====
-- http_range_server.cpp: `mime_type`, `parse_target`, `sanitize_url`, the registry's keys and
-- `stream_url`. The regular expression /stream/([a-fA-F0-9]+)/(\d+) is matched by hand: its parts are
-- told apart by the slashes, which no class holds.
pub mod Laws
mod Tests
use seekserve.Common.{
  ℕ, zero, suc, ◌+◌, ◌-◌, Bool, true, false, not, ◌&&◌, ◌||◌, Option, none, some, [], ◌∷◌, ◌++◌,
  leb, ◌==◌, if◌then◌else◌, ◌>>=◌, ◌>>◌, guard, length, take, drop,
}
use seekserve.Common.Int.{ℤ, pos, negsuc}
use seekserve.Common.Bytes.{Bytes, codes, bytes_eq, is_empty, find}
use seekserve.Common.Decimal.{to_string, stoi, is_digit}

-- s.find(text): where `text` first begins in `s`.
unfoldable pub find_text : Bytes → Bytes → Option ℕ
find_text text [] = if is_empty text then some 0 else none
find_text text (c ∷ s) =
    let rest = find_text text s in
    if bytes_eq (take (length text) (c ∷ s)) text
    then some 0
    else elim rest [ none ↦ none | some i ↦ some (suc i) ]

-- substr(0, pos) at the first `c`, or the whole text.
unfoldable pub before : ℕ → Bytes → Bytes
unfolding find
before c s = elim (find c s) [ none ↦ s | some i ↦ take i s ]

-- substr(pos) from the last `c` on, which stays.
unfoldable pub from_last : ℕ → Bytes → Option Bytes
from_last c [] = none
from_last c (d ∷ s) =
    let rest = from_last c s in
    elim rest [ none ↦ if d == c then some (d ∷ s) else none | some t ↦ some t ]

unfoldable pub mime_of_ext : Bytes → Bytes
mime_of_ext ext =
    if bytes_eq ext (codes ".mp4")
    then codes "video/mp4"
    else if bytes_eq ext (codes ".mkv")
    then codes "video/x-matroska"
    else if bytes_eq ext (codes ".avi")
    then codes "video/x-msvideo"
    else if bytes_eq ext (codes ".webm")
    then codes "video/webm"
    else if bytes_eq ext (codes ".ogv")
    then codes "video/ogg"
    else if bytes_eq ext (codes ".mov")
    then codes "video/quicktime"
    else if bytes_eq ext (codes ".mp3")
    then codes "audio/mpeg"
    else if bytes_eq ext (codes ".ogg")
    then codes "audio/ogg"
    else if bytes_eq ext (codes ".flac")
    then codes "audio/flac"
    else codes "application/octet-stream"

unfoldable pub mime_type : Bytes → Bytes
unfolding from_last mime_of_ext
mime_type path = elim (from_last b'.' path) [
  | none ↦ codes "application/octet-stream"
  | some ext ↦ mime_of_ext ext
]

pub record ParsedTarget : Type 0 where
  pub torrent_id : Bytes
  pub file_index : ℤ
  pub token : Bytes

abbrev pub is_hex : ℕ → Bool
is_hex c = (leb b'a' c && leb c b'f') || (leb b'A' c && leb c b'F') || is_digit c

unfoldable pub all_bytes : (ℕ → Bool) → Bytes → Bool
all_bytes p [] = true
all_bytes p (c ∷ s) = p c && all_bytes p s

-- The value behind the first `token=`, up to the next `&`.
unfoldable pub token_value : Bytes → Option Bytes
unfolding find_text before
token_value s = elim (find_text (codes "token=") s) [
  | none ↦ none
  | some tpos ↦ some (before b'&' (drop (tpos + 6) s))
]

-- The two groups of the match, if the path is a match.
unfoldable pub match_path : Bytes → Option (Bytes × Bytes)
match_path path = do
  guard (bytes_eq (take 8 path) (codes "/stream/"))
  let rest = drop 8 path
  slash ← find b'/' rest
  let id = take slash rest
  let index = drop (suc slash) rest
  guard (not (is_empty id) && all_bytes is_hex id)
  guard (not (is_empty index) && all_bytes is_digit index)
  some (id, index)

abbrev pub query_of : Bytes → Bytes
query_of target = elim (find b'?' target) [ none ↦ [] | some q ↦ drop (suc q) target ]

abbrev pub or_empty : Option Bytes → Bytes
or_empty none = []
or_empty (some s) = s

unfoldable pub parse_target : Bytes → Option ParsedTarget
unfolding match_path token_value
parse_target target = do
  (id, index) ← match_path (before b'?' target)
  file_index ← stoi index
  some (record {
    torrent_id = id;
    file_index = file_index;
    token = or_empty (token_value (query_of target));
  })

-- The text from the first `&` at or behind `token=` on, which stays.
unfoldable pub from_amp : Bytes → Bytes
from_amp s = elim (find b'&' s) [ none ↦ [] | some i ↦ drop i s ]

unfoldable pub sanitize_url : Bytes → Bytes
unfolding find_text from_amp
sanitize_url url = elim (find_text (codes "token=") url) [
  | none ↦ url
  | some p ↦ take p url ++ (codes "token=***" ++ from_amp (drop p url))
]

-- std::to_string on a file index
unfoldable pub index_text : ℤ → Bytes
index_text (pos n) = to_string n
index_text (negsuc n) = b'-' ∷ to_string (suc n)

-- "torrentId/fileIndex"
unfoldable pub source_key : Bytes → ℤ → Bytes
unfolding index_text
source_key torrent_id file_index = torrent_id ++ (b'/' ∷ index_text file_index)

-- The path and query of a stream's URL, behind the address and the port.
unfoldable pub stream_target : Bytes → ℤ → Bytes → Bytes
unfolding index_text
stream_target id fi token =
    codes "/stream/" ++ (id ++ (b'/' ∷ (index_text fi ++ (codes "?token=" ++ token))))

unfoldable pub stream_url : Bytes → ℕ → Bytes → ℤ → Bytes → Bytes
unfolding stream_target
stream_url bind_address port id fi token =
    codes "http://" ++ (bind_address ++ (b':' ∷ (to_string port ++ stream_target id fi token)))
