-- ===== src/Cache/Quota.antt =====
-- `enforce_quota` brings the rows under the limit.
use seekserve.Common.{
  ℕ, ◌+◌, ◌-◌, ◌≤◌, ◌<◌, ◌≡◌, refl, sym, ap, subst, ◌∙◌, Bool, true, false, List, [], ◌∷◌, arith,
  if◌then◌else◌, inl, inr, Bool-cases,
}
use seekserve.Common.Int.{ℤ, pos, leb_ℤ, ltb_ℤ, eqb_ℤ}
use seekserve.Common.Bytes.{bytes_eq_refl}
use seekserve.Cache.{
  CacheEntry, Cache, Statement, is_row, total_size, to_delete, delete_row, delete_rows,
  enforce_quota, select_total, select_lru, delete_entry,
}

abbrev sum_of : (CacheEntry → ℕ) → List CacheEntry → ℕ
sum_of f [] = 0
sum_of f (e ∷ es) = f e + sum_of f es

-- A query with ORDER BY returns the rows of the table in some order: sums over them are the same.
abbrev pub SameRows : List CacheEntry → List CacheEntry → Type 0
SameRows es es' = (f : CacheEntry → ℕ) → sum_of f es ≡ sum_of f es'

is_row_self : (e : CacheEntry) → is_row e.torrent_id e.file_index e ≡ true
unfolding is_row
is_row_self e = rw (bytes_eq_refl e.torrent_id) (same e.file_index)
  where
    same : (a : ℤ) → eqb_ℤ a a ≡ true
    same a = ground arith

-- The size of a row that no deleted row names.
abbrev left_size : List CacheEntry → CacheEntry → ℕ
left_size [] e = e.file_size
left_size (d ∷ ds) e = if is_row d.torrent_id d.file_index e then 0 else left_size ds e

left_size_le : (ds : List CacheEntry) (e : CacheEntry) → left_size ds e ≤ e.file_size
left_size_le [] e = omega arith
left_size_le (d ∷ ds) e = ground (arith, left_size_le ds e)

delete_row-sum :
    (d : CacheEntry) (ds es : List CacheEntry)
    → sum_of (left_size ds) (delete_row d.torrent_id d.file_index es)
      ≡ sum_of (left_size (d ∷ ds)) es
unfolding delete_row
delete_row-sum d ds [] = refl
delete_row-sum d ds (e ∷ es) = ground (arith, delete_row-sum d ds es)

total_size-delete_rows :
    (ds es : List CacheEntry) → total_size (delete_rows ds es) ≡ sum_of (left_size ds) es
unfolding total_size delete_rows
total_size-delete_rows [] [] = refl
total_size-delete_rows [] (e ∷ es) = ap (λ (n : ℕ). e.file_size + n) (total_size-delete_rows [] es)
total_size-delete_rows (d ∷ ds) es =
    total_size-delete_rows ds (delete_row d.torrent_id d.file_index es) ∙ delete_row-sum d ds es

total_size-sum_of : (es : List CacheEntry) → total_size es ≡ sum_of (λ e. e.file_size) es
unfolding total_size
total_size-sum_of [] = refl
total_size-sum_of (e ∷ es) = ap (λ (n : ℕ). e.file_size + n) (total_size-sum_of es)

sum_of_le :
    (f g : CacheEntry → ℕ) (es : List CacheEntry)
    → ((e : CacheEntry) → f e ≤ g e)
    → sum_of f es ≤ sum_of g es
sum_of_le f g [] h = omega arith
sum_of_le f g (e ∷ es) h = omega (arith, h e, sum_of_le f g es h)

-- Of the rows in their order, those that are not deleted fit the limit.
to_delete-fits :
    (es : List CacheEntry) (max_bytes : ℕ)
    → sum_of (left_size (to_delete es (sum_of (λ e. e.file_size) es) (pos max_bytes))) es
      ≤ max_bytes
unfolding to_delete
to_delete-fits [] max_bytes = omega arith
to_delete-fits (e ∷ es) max_bytes =
    let total = e.file_size + sum_of (λ e. e.file_size) es in
    elim (Bool-cases (ltb_ℤ (pos max_bytes) (pos total))) [
      | inr fits ↦
          subst (λ (ds : List CacheEntry). sum_of (left_size ds) (e ∷ es) ≤ max_bytes)
            (sym (deletes_none fits))
            (omega (
              arith,
              sum_of_le (left_size []) (λ e. e.file_size) (e ∷ es) (left_size_le []),
              at_most total max_bytes fits,
            ))
      | inl above ↦
          let rest = to_delete es (sum_of (λ e. e.file_size) es) (pos max_bytes) in
          subst (λ (ds : List CacheEntry). sum_of (left_size ds) (e ∷ es) ≤ max_bytes)
            (sym (deletes_first above))
            (rw (is_row_self e) (drops_first rest (to_delete-fits es max_bytes)))
    ]
  where
    at_most : (a b : ℕ) → ltb_ℤ (pos b) (pos a) ≡ false → a ≤ b
    at_most a b h = ground arith

    rest_total : (a b : ℕ) → a + b - a ≡ b
    rest_total a b = omega arith

    smaller : (b : Bool) (n : ℕ) → (if b then 0 else n) ≤ n
    smaller b n = ground arith

    deletes_none :
        ltb_ℤ (pos max_bytes) (pos (sum_of (λ e. e.file_size) (e ∷ es))) ≡ false
        → to_delete (e ∷ es) (sum_of (λ e. e.file_size) (e ∷ es)) (pos max_bytes) ≡ []
    deletes_none fits = rw (fits, to_delete) refl

    deletes_first :
        ltb_ℤ (pos max_bytes) (pos (sum_of (λ e. e.file_size) (e ∷ es))) ≡ true
        → to_delete (e ∷ es) (sum_of (λ e. e.file_size) (e ∷ es)) (pos max_bytes)
          ≡ e ∷ to_delete es (sum_of (λ e. e.file_size) es) (pos max_bytes)
    deletes_first above =
        rw (above, to_delete)
          (ap (λ (n : ℕ). e ∷ to_delete es n (pos max_bytes))
            (rest_total e.file_size (sum_of (λ e. e.file_size) es)))

    drops_first :
        (ds : List CacheEntry)
        → sum_of (left_size ds) es ≤ max_bytes
        → 0 + sum_of (left_size (e ∷ ds)) es ≤ max_bytes
    drops_first ds h = omega (
      arith,
      h,
      sum_of_le (left_size (e ∷ ds)) (left_size ds) es
          λ x. smaller (is_row e.torrent_id e.file_index x) (left_size ds x),
    )

-- Behind `enforce_quota` the sizes of the cached files add up to the limit at most, when the database
-- is open and takes the statements, and the limit is set. The ordered query returns the rows of the
-- table, in any order.
pub enforce_quota-fits :
    (by_access : List CacheEntry → List CacheEntry) (cache : Cache) (max_bytes : ℕ)
    → ((es : List CacheEntry) → SameRows (by_access es) es)
    → cache.max_storage_bytes ≡ pos max_bytes
    → 0 < max_bytes
    → cache.is_open ≡ true
    → ((s : Statement) → cache.prepares s ≡ true)
    → total_size (enforce_quota by_access cache).entries ≤ max_bytes
unfolding enforce_quota
enforce_quota-fits by_access cache max_bytes same limit set opened prepared =
    elim (Bool-cases (leb_ℤ (pos (total_size cache.entries)) (pos max_bytes))) [
      | inl fits ↦
          rw (opened, limit, positive max_bytes set, prepared select_total, fits)
            (below (total_size cache.entries) max_bytes fits)
      | inr above ↦
          rw
            (
              opened,
              limit,
              positive max_bytes set,
              prepared select_total,
              above,
              prepared select_lru,
              prepared delete_entry,
            )
            deleted
    ]
  where
    positive : (n : ℕ) → 0 < n → leb_ℤ (pos n) (pos 0) ≡ false
    positive n h = ground arith

    below : (a b : ℕ) → leb_ℤ (pos a) (pos b) ≡ true → a ≤ b
    below a b h = ground arith

    rows : List CacheEntry
    rows = by_access cache.entries

    total_is : total_size cache.entries ≡ sum_of (λ e. e.file_size) rows
    total_is = total_size-sum_of cache.entries ∙ sym (same cache.entries (λ e. e.file_size))

    deleted :
        total_size
          (delete_rows (to_delete rows (total_size cache.entries) (pos max_bytes)) cache.entries)
        ≤ max_bytes
    deleted =
        let ds = to_delete rows (sum_of (λ e. e.file_size) rows) (pos max_bytes) in
        rw (total_is) (
          omega (
            arith,
            total_size-delete_rows ds cache.entries,
            same cache.entries (left_size ds),
            to_delete-fits rows max_bytes,
          ))
