-- ===== src/Http/Registry/Lookup.antt =====
-- What each operation of the registry does to the stream that a request finds.
use seekserve.Common.{
  ℕ, ◌≡◌, refl, sym, ap₂, ◌∙◌, Bool, true, false, ◌&&◌, none, some, [], ◌∷◌, arith, if◌then◌else◌,
  All, Bool-cases, Option-cases, inl, inr,
}
use seekserve.Common.Int.{ℤ, eqb_ℤ}
use seekserve.Common.Bytes.{Bytes, bytes_eq, bytes_eq_iff, bytes_eq_refl, Lacks}
use seekserve.Common.Assoc.{Assoc, lookup, insert, erase, lookup-insert, lookup-erase}
use seekserve.Types.{TorrentId, FileIndex}
use seekserve.Http.Url.{source_key}
use seekserve.Http.Url.Laws.{source_key-injective}
use seekserve.Http.Registry.{
  SourceEntry, Server, set_byte_source, remove_byte_source, kept, remove_byte_sources_for_torrent,
  find_source,
}

-- Every entry stands under the key of its torrent and file, and no torrent id holds a slash.
abbrev pub IsKeyed : Bytes × SourceEntry → Type 0
IsKeyed (key, entry) =
    (key ≡ source_key entry.torrent_id entry.file_index) × Lacks b'/' entry.torrent_id

abbrev pub WellKeyed : Server → Type 0
WellKeyed sv = All IsKeyed sv.sources

insert-IsKeyed :
    (k : Bytes) (e : SourceEntry) (m : Assoc SourceEntry)
    → IsKeyed (k, e)
    → All IsKeyed m
    → All IsKeyed (insert k e m)
unfolding insert
insert-IsKeyed k e [] h hm = (h, tt)
insert-IsKeyed k e ((j, d) ∷ m) h (hd, hm) = elim (Bool-cases (bytes_eq j k)) [
  | inl same ↦ rw (same, insert) (h, hm)
  | inr other ↦ rw (other, insert) (hd, insert-IsKeyed k e m h hm)
]

erase-IsKeyed : (k : Bytes) (m : Assoc SourceEntry) → All IsKeyed m → All IsKeyed (erase k m)
unfolding erase
erase-IsKeyed k [] hm = tt
erase-IsKeyed k ((j, d) ∷ m) (hd, hm) = elim (Bool-cases (bytes_eq j k)) [
  | inl same ↦ rw (same, erase) (erase-IsKeyed k m hm)
  | inr other ↦ rw (other, erase) (hd, erase-IsKeyed k m hm)
]

kept-IsKeyed : (id : TorrentId) (m : Assoc SourceEntry) → All IsKeyed m → All IsKeyed (kept id m)
unfolding kept
kept-IsKeyed id [] hm = tt
kept-IsKeyed id ((j, d) ∷ m) (hd, hm) = elim (Bool-cases (bytes_eq d.torrent_id id)) [
  | inl same ↦ rw (same, kept) (kept-IsKeyed id m hm)
  | inr other ↦ rw (other, kept) (hd, kept-IsKeyed id m hm)
]

pub set_byte_source-WellKeyed :
    (source : ℕ) (id : TorrentId) (fi : FileIndex) (path : Bytes) (sv : Server)
    → Lacks b'/' id
    → WellKeyed sv
    → WellKeyed (set_byte_source source id fi path sv)
unfolding set_byte_source
set_byte_source-WellKeyed source id fi path sv h keyed =
    insert-IsKeyed (source_key id fi) _ sv.sources (refl, h) keyed

pub remove_byte_source-WellKeyed :
    (id : TorrentId) (fi : FileIndex) (sv : Server)
    → WellKeyed sv
    → WellKeyed (remove_byte_source id fi sv)
unfolding remove_byte_source
remove_byte_source-WellKeyed id fi sv keyed =
    elim (Option-cases (lookup (source_key id fi) sv.sources)) [
      | inl absent ↦ rw (absent, remove_byte_source) keyed
      | inr (entry, present) ↦
          rw (present, remove_byte_source) (erase-IsKeyed (source_key id fi) sv.sources keyed)
    ]

pub remove_byte_sources_for_torrent-WellKeyed :
    (id : TorrentId) (sv : Server)
    → WellKeyed sv
    → WellKeyed (remove_byte_sources_for_torrent id sv)
unfolding remove_byte_sources_for_torrent
remove_byte_sources_for_torrent-WellKeyed id sv keyed = kept-IsKeyed id sv.sources keyed

-- Whether two streams are the same.
abbrev pub same_stream : TorrentId → FileIndex → TorrentId → FileIndex → Bool
same_stream id fi id' fi' = bytes_eq id id' && eqb_ℤ fi fi'

same_truth : (b c : Bool) → (b ≡ true → c ≡ true) → (c ≡ true → b ≡ true) → b ≡ c
same_truth true c f g = sym (f refl)
same_truth false true f g = g refl
same_truth false false f g = refl

eqb_ℤ-true : (a b : ℤ) → eqb_ℤ a b ≡ true → a ≡ b
eqb_ℤ-true a b h = ground arith

eqb_ℤ_refl : (a : ℤ) → eqb_ℤ a a ≡ true
eqb_ℤ_refl a = ground arith

source_key-same :
    (id id' : TorrentId) (fi fi' : FileIndex)
    → Lacks b'/' id
    → Lacks b'/' id'
    → bytes_eq (source_key id fi) (source_key id' fi') ≡ same_stream id fi id' fi'
source_key-same id id' fi fi' h h' =
    same_truth (bytes_eq (source_key id fi) (source_key id' fi')) (same_stream id fi id' fi')
      (λ e.
        let (same_id, same_fi) =
          source_key-injective id id' fi fi' h h'
            ((bytes_eq_iff (source_key id fi) (source_key id' fi')).0 e) in
        rw (same_id, same_fi, bytes_eq_refl id', eqb_ℤ_refl fi') refl)
      λ e.
        let (same_id, same_fi) = both (bytes_eq id id') (eqb_ℤ fi fi') e in
        (bytes_eq_iff (source_key id fi) (source_key id' fi')).1
          (ap₂ source_key ((bytes_eq_iff id id').0 same_id) (eqb_ℤ-true fi fi' same_fi))
  where
    both : (b c : Bool) → (b && c) ≡ true → (b ≡ true) × (c ≡ true)
    both true c e = (refl, e)
    both false c e = cc

-- A source that is set is found for its torrent and file; every other stream is found as before.
-- The two torrent ids hold no slash.
pub find_source-set_byte_source :
    (source : ℕ) (id id' : TorrentId) (fi fi' : FileIndex) (path : Bytes) (sv : Server)
    → Lacks b'/' id
    → Lacks b'/' id'
    → find_source id' fi' (set_byte_source source id fi path sv) ≡ (
        if same_stream id fi id' fi'
        then some (record { source = source; torrent_id = id; file_index = fi; file_path = path })
        else find_source id' fi' sv)
unfolding find_source set_byte_source
find_source-set_byte_source source id id' fi fi' path sv h h' =
    rw
      (
        lookup-insert (source_key id fi) (source_key id' fi')
            (record { source = source; torrent_id = id; file_index = fi; file_path = path })
            sv.sources,
        source_key-same id id' fi fi' h h',
      )
      refl

-- A source that is removed is not found any more; every other stream is found as before.
-- The two torrent ids hold no slash.
pub find_source-remove_byte_source :
    (id id' : TorrentId) (fi fi' : FileIndex) (sv : Server)
    → Lacks b'/' id
    → Lacks b'/' id'
    → find_source id' fi' (remove_byte_source id fi sv)
      ≡ (if same_stream id fi id' fi' then none else find_source id' fi' sv)
unfolding find_source remove_byte_source
find_source-remove_byte_source id id' fi fi' sv h h' =
    rw (sym (source_key-same id id' fi fi' h h')) removed
  where
    k : Bytes
    k = source_key id fi

    k' : Bytes
    k' = source_key id' fi'

    removed :
        lookup k' (remove_byte_source id fi sv).sources
        ≡ (if bytes_eq k k' then none else lookup k' sv.sources)
    removed = elim (Option-cases (lookup k sv.sources)) [
      | inl absent ↦ rw (absent, remove_byte_source) (ground (arith, absent, bytes_eq_iff k k'))
      | inr (entry, present) ↦ rw (present, remove_byte_source) (lookup-erase k k' sv.sources)
    ]

lookup-kept :
    (id id' : TorrentId) (fi' : FileIndex) (m : Assoc SourceEntry)
    → Lacks b'/' id'
    → All IsKeyed m
    → lookup (source_key id' fi') (kept id m)
      ≡ (if bytes_eq id id' then none else lookup (source_key id' fi') m)
unfolding lookup kept
lookup-kept id id' fi' [] h hm = ground arith
lookup-kept id id' fi' ((key, d) ∷ m) h ((key_is, lacks), hm) = ground (
  arith,
  lookup-kept id id' fi' m h hm,
  bytes_eq_iff d.torrent_id id,
  bytes_eq_iff key (source_key id' fi'),
  bytes_eq_iff id id',
  own_key,
)
  where
    own_key : key ≡ source_key id' fi' → d.torrent_id ≡ id'
    own_key e = (source_key-injective d.torrent_id id' d.file_index fi' lacks h (sym key_is ∙ e)).0

-- When a torrent's sources are removed, no stream of it is found any more, and every stream of
-- another torrent is found as before. The stream's torrent id holds no slash, and the registry is keyed
-- by torrent and file.
pub find_source-remove_byte_sources_for_torrent :
    (id id' : TorrentId) (fi' : FileIndex) (sv : Server)
    → Lacks b'/' id'
    → WellKeyed sv
    → find_source id' fi' (remove_byte_sources_for_torrent id sv)
      ≡ (if bytes_eq id id' then none else find_source id' fi' sv)
unfolding find_source remove_byte_sources_for_torrent
find_source-remove_byte_sources_for_torrent id id' fi' sv h keyed =
    lookup-kept id id' fi' sv.sources h keyed
