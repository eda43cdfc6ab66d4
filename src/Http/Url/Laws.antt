-- ===== src/Http/Url/Laws.antt =====
-- URLs, made by `stream_url` and read by `parse_target` and `token_value`; keys that tell streams apart.
use seekserve.Common.{
  ℕ, suc, ◌+◌, ◌^◌, ◌<◌, ◌≡◌, ◌≢◌, refl, sym, ap, ap₂, ◌∙◌, true, false, none, some, [], ◌∷◌, ◌++◌,
  append-nil, append_assoc, arith, length, take, drop, take-append, All, All-append, inl, inr,
  Option-cases,
}
use seekserve.Common.Int.{ℤ, pos, negsuc}
use seekserve.Common.Bytes.{Bytes, codes, bytes_eq, is_empty, find, Lacks}
use seekserve.Common.Decimal.{
  to_string, stoi, is_digit, IsDigit, value-to_string, to_string-IsDigit, to_string-ne-nil,
  to_string-Lacks, strto, strto-to_string, value,
}
use seekserve.Http.Url.{
  find_text, before, is_hex, all_bytes, token_value, match_path, query_of, parse_target, index_text,
  source_key, stream_target,
}

pub find-append : (c : ℕ) (s t : Bytes) → Lacks c s → find c (s ++ (c ∷ t)) ≡ some (length s)
unfolding find
find-append c [] t h = ground arith
find-append c (d ∷ s) t h = ground (arith, find-append c s t h.1)

find-none : (c : ℕ) (s : Bytes) → Lacks c s → find c s ≡ none
unfolding find
find-none c [] h = refl
find-none c (d ∷ s) h = ground (arith, find-none c s h.1)

before-append : (c : ℕ) (s t : Bytes) → Lacks c s → before c (s ++ (c ∷ t)) ≡ s
unfolding before
before-append c s t h = rw (find-append c s t h, before) (take-append s (c ∷ t))

pub before-none : (c : ℕ) (s : Bytes) → Lacks c s → before c s ≡ s
unfolding before
before-none c s h = rw (find-none c s h, before) refl

drop-suc : (s : Bytes) (c : ℕ) (t : Bytes) → drop (suc (length s)) (s ++ (c ∷ t)) ≡ t
drop-suc [] c t = refl
drop-suc (d ∷ s) c t = drop-suc s c t

-- The two sides of a mark that the left sides lack.
split_unique :
    (c : ℕ) (s s' t t' : Bytes)
    → Lacks c s
    → Lacks c s'
    → s ++ (c ∷ t) ≡ s' ++ (c ∷ t')
    → (s ≡ s') × (t ≡ t')
split_unique c s s' t t' h h' e =
    let same = sym (before-append c s t h) ∙ ap (before c) e ∙ before-append c s' t' h' in
    (
      same,
      sym (drop-suc s c t)
          ∙ ap₂ (λ (x y : Bytes). drop (suc (length x)) y) same e
          ∙ drop-suc s' c t',
    )

first_digit : (n : ℕ) (s : Bytes) → b'-' ∷ s ≢ to_string n
first_digit n s e = go (to_string n) (to_string-IsDigit n) e
  where
    go : (t : Bytes) → All IsDigit t → b'-' ∷ s ≢ t
    go [] h q = cc
    go (d ∷ t) h q = ground (arith, h.0)

index_text-injective : (m n : ℤ) → index_text m ≡ index_text n → m ≡ n
unfolding index_text
index_text-injective (pos m) (pos n) e =
    ap pos (sym (value-to_string m) ∙ ap (value 0) e ∙ value-to_string n)
index_text-injective (pos m) (negsuc n) e = absurd (first_digit m (to_string (suc n)) (sym e))
index_text-injective (negsuc m) (pos n) e = absurd (first_digit n (to_string (suc m)) e)
index_text-injective (negsuc m) (negsuc n) e = ap negsuc (
    omega (
      arith,
      sym (value-to_string (suc m))
          ∙ ap (λ (s : Bytes). value 0 (drop 1 s)) e
          ∙ value-to_string (suc n),
    ))

-- Streams with the same key have the same torrent and file, when no torrent id holds a slash.
pub source_key-injective :
    (id id' : Bytes) (fi fi' : ℤ)
    → Lacks b'/' id
    → Lacks b'/' id'
    → source_key id fi ≡ source_key id' fi'
    → (id ≡ id') × (fi ≡ fi')
unfolding source_key
source_key-injective id id' fi fi' h h' e =
    let (same_id, same_index) = split_unique b'/' id id' (index_text fi) (index_text fi') h h' e in
    (same_id, index_text-injective fi fi' same_index)

abbrev pub IsHex : ℕ → Type 0
IsHex c = is_hex c ≡ true

pub hex-Lacks : (c : ℕ) → is_hex c ≡ false → (s : Bytes) → All IsHex s → Lacks c s
hex-Lacks c h [] hs = tt
hex-Lacks c h (d ∷ s) (hd, hs) = (λ e. ground (arith, h, hd, e), hex-Lacks c h s hs)

hex-all_bytes : (s : Bytes) → All IsHex s → all_bytes is_hex s ≡ true
unfolding all_bytes
hex-all_bytes [] h = refl
hex-all_bytes (c ∷ s) (hc, hs) = ground (arith, hc, hex-all_bytes s hs)

digit-all_bytes : (s : Bytes) → All IsDigit s → all_bytes is_digit s ≡ true
unfolding all_bytes
digit-all_bytes [] h = refl
digit-all_bytes (c ∷ s) (hc, hs) = ground (arith, hc, digit-all_bytes s hs)

pub is_empty-ne : (s : Bytes) → s ≢ [] → is_empty s ≡ false
is_empty-ne [] h = absurd (h refl)
is_empty-ne (c ∷ s) h = refl

abbrev marker : Bytes
marker = codes "token="

-- The value behind a `token=` that starts the text.
token_value-here : (token : Bytes) → Lacks b'&' token → token_value (marker ++ token) ≡ some token
unfolding token_value find_text bytes_eq
token_value-here token h = ap some (before-none b'&' token h)

suc_six : (i : ℕ) → suc i + 6 ≡ suc (i + 6)
suc_six i = omega arith

token_value-skip :
    (c : ℕ) (s : Bytes)
    → bytes_eq (take 6 (c ∷ s)) marker ≡ false
    → token_value (c ∷ s) ≡ token_value s
unfolding token_value find_text
token_value-skip c s h = elim (Option-cases (find_text marker s)) [
  | inl absent ↦ rw (h, absent, token_value, find_text) refl
  | inr (i, found) ↦
      rw (h, found, token_value, find_text)
        (ap (λ (n : ℕ). some (before b'&' (drop n (c ∷ s)))) (suc_six i))
]

no_t : (c : ℕ) (r : Bytes) → c ≢ b't' → bytes_eq (take 6 (c ∷ r)) marker ≡ false
unfolding bytes_eq
no_t c r h = ground (arith, h)

token_value-append : (s t : Bytes) → Lacks b't' s → token_value (s ++ t) ≡ token_value t
token_value-append [] t h = refl
token_value-append (c ∷ s) t (hc, hs) =
    token_value-skip c (s ++ t) (no_t c (s ++ t) hc) ∙ token_value-append s t hs

abbrev path_of : Bytes → Bytes → Bytes
path_of id index = codes "/stream/" ++ (id ++ (b'/' ∷ index))

stream_target-path :
    (id token : Bytes) (fi : ℤ)
    → stream_target id fi token ≡ path_of id (index_text fi) ++ (b'?' ∷ (marker ++ token))
unfolding stream_target
stream_target-path id token fi =
    ap (λ (s : Bytes). codes "/stream/" ++ s)
      (sym (append_assoc id (b'/' ∷ index_text fi) (b'?' ∷ (marker ++ token))))

match_path-path_of :
    (id index : Bytes)
    → All IsHex id
    → id ≢ []
    → All IsDigit index
    → index ≢ []
    → match_path (path_of id index) ≡ some (id, index)
unfolding match_path bytes_eq
match_path-path_of id index hid nid hindex nindex =
    rw
      (
        find-append b'/' id index (hex-Lacks b'/' refl id hid),
        take-append id (b'/' ∷ index),
        drop-suc id b'/' index,
        hex-all_bytes id hid,
        is_empty-ne id nid,
        digit-all_bytes index hindex,
        is_empty-ne index nindex,
      )
      refl

path_of-Lacks :
    (c : ℕ) (id index : Bytes)
    → Lacks c (codes "/stream/")
    → b'/' ≢ c
    → Lacks c id
    → Lacks c index
    → Lacks c (path_of id index)
path_of-Lacks c id index hp hs hid hindex =
    All-append _ (codes "/stream/") (id ++ (b'/' ∷ index)) hp
      (All-append _ id (b'/' ∷ index) hid (hs, hindex))

-- A torrent id is a text of hexadecimal digits, not empty.
abbrev pub IsId : Bytes → Type 0
IsId id = All IsHex id × (id ≢ [])

no_question : (n : ℕ) (id : Bytes) → All IsHex id → Lacks b'?' (path_of id (to_string n))
no_question n id hid =
    path_of-Lacks b'?' id (to_string n)
      (
        omega arith,
        (
          omega arith,
          (
            omega arith,
            (omega arith, (omega arith, (omega arith, (omega arith, (omega arith, tt))))),
          ),
        ),
      )
      (omega arith) (hex-Lacks b'?' refl id hid) (to_string-Lacks b'?' n refl)

stoi-to_string : (n : ℕ) → n < 2 ^ 31 → stoi (to_string n) ≡ some (pos n)
stoi-to_string n h =
    ap (strto (2 ^ 31)) (sym (append-nil (to_string n))) ∙ strto-to_string (2 ^ 31) n [] h tt

query_of-append : (s t : Bytes) → Lacks b'?' s → query_of (s ++ (b'?' ∷ t)) ≡ t
query_of-append s t h = rw (find-append b'?' s t h, query_of) (drop-suc s b'?' t)

token_value-path : (r : Bytes) → token_value (codes "/stream/" ++ r) ≡ token_value r
unfolding bytes_eq
token_value-path r =
    token_value-append (codes "/s") (codes "tream/" ++ r) (omega arith, (omega arith, tt))
    ∙ token_value-skip b't' (codes "ream/" ++ r) refl
    ∙ token_value-append (codes "ream/") r
        (omega arith, (omega arith, (omega arith, (omega arith, (omega arith, tt)))))

-- The token of a stream's target, looked for in the whole target.
pub token_value-stream_target :
    (id token : Bytes) (n : ℕ)
    → IsId id
    → Lacks b'&' token
    → token_value (stream_target id (pos n) token) ≡ some token
unfolding index_text
token_value-stream_target id token n (hid, nid) h =
    ap token_value (stream_target-path id token (pos n) ∙ regroup)
    ∙ token_value-path (rest ++ (b'?' ∷ (marker ++ token)))
    ∙ token_value-append rest (b'?' ∷ (marker ++ token)) rest-Lacks
    ∙ token_value-skip b'?' (marker ++ token) (no_t b'?' (marker ++ token) (omega arith))
    ∙ token_value-here token h
  where
    rest : Bytes
    rest = id ++ (b'/' ∷ to_string n)

    regroup :
        path_of id (to_string n) ++ (b'?' ∷ (marker ++ token))
        ≡ codes "/stream/" ++ (rest ++ (b'?' ∷ (marker ++ token)))
    regroup = refl

    rest-Lacks : Lacks b't' rest
    rest-Lacks =
        All-append _ id (b'/' ∷ to_string n) (hex-Lacks b't' refl id hid)
          (omega arith, to_string-Lacks b't' n refl)

-- The server reads the URL that it gave out: the target has the torrent, the file and the token that
-- it was made of, when the id is hexadecimal, the index fits an int, and the token has no `&`.
pub parse_target-stream_target :
    (id token : Bytes) (n : ℕ)
    → IsId id
    → n < 2 ^ 31
    → Lacks b'&' token
    → parse_target (stream_target id (pos n) token)
      ≡ some (record { torrent_id = id; file_index = pos n; token = token })
unfolding parse_target index_text
parse_target-stream_target id token n (hid, nid) small h =
    rw
      (
        stream_target-path id token (pos n),
        before-append b'?' (path_of id (to_string n)) (marker ++ token) (no_question n id hid),
        match_path-path_of id (to_string n) hid nid (to_string-IsDigit n) (to_string-ne-nil n),
        stoi-to_string n small,
        query_of-append (path_of id (to_string n)) (marker ++ token) (no_question n id hid),
        token_value-here token h,
      )
      refl
