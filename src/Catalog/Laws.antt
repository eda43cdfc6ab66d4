-- ===== src/Catalog/Laws.antt =====
-- What the catalog answers behind each operation.
use seekserve.Common.{
  ℕ, zero, suc, ◌+◌, ◌-◌, ◌<◌, ◌≡◌, refl, ap, ◌∙◌, none, some, List, arith, ltb, ◌==◌,
  if◌then◌else◌, replicate, set, get_elem?, inl, inr, Bool-cases, Option-cases,
}
use seekserve.Common.Int.{pos, sub_ℕ, next}
use seekserve.Common.Bytes.{bytes_eq, bytes_eq_refl}
use seekserve.Common.Assoc.{lookup, insert, lookup-insert}
use seekserve.Types.{TorrentId, FileIndex, FileInfo, Result, ok, err}
use seekserve.Mapper.{FileStorage, make_mapper, first_piece, end_piece}
use seekserve.Catalog.{
  TorrentInfo, TorrentEntry, Catalog, file_info, files_from, on_metadata_received, out_of_range,
  dont_download, default_priority, priorities, select_file, selected_file,
}

files_from-get_elem :
    (fs : FileStorage) (i n j : ℕ)
    → j < n
    → get_elem? (files_from fs i n) j ≡ some (file_info fs (i + j))
unfolding files_from
files_from-get_elem fs i zero j h = absurd (omega arith)
files_from-get_elem fs i (suc n) zero h = ap (λ (k : ℕ). some (file_info fs k)) (omega arith)
files_from-get_elem fs i (suc n) (suc j) h =
    files_from-get_elem fs (suc i) n j (omega arith)
    ∙ ap (λ (k : ℕ). some (file_info fs k)) (shift i j)
  where
    shift : (a b : ℕ) → suc a + b ≡ a + suc b
    shift a b = omega arith

file_info-pieces :
    (fs : FileStorage) (i : ℕ)
    → ((file_info fs i).first_piece ≡ first_piece (make_mapper fs (pos i)))
      × ((file_info fs i).end_piece ≡ end_piece (make_mapper fs (pos i)))
unfolding file_info first_piece end_piece make_mapper
file_info-pieces fs i = (refl, go (fs.file_size (pos i)))
  where
    go :
        (n : ℕ)
        → (if ltb 0 n
            then next (fs.map_file (pos i) (pos (n - 1)) 1).piece
            else (fs.map_file (pos i) (pos 0) 1).piece)
          ≡ (if n == 0
              then (fs.map_file (pos i) (pos 0) 1).piece
              else next (fs.map_file (pos i) (sub_ℕ n 1) 1).piece)
    go n = ground arith

-- The file with index `i` that the catalog lists has the pieces that the mapper computes for it: the
-- two computations of a file's piece range, in the catalog and in the mapper, agree.
pub files_from-pieces :
    (fs : FileStorage) (i : ℕ)
    → i < fs.num_files
    → (f : FileInfo) × (get_elem? (files_from fs 0 fs.num_files) i ≡ some f)
      × (f.first_piece ≡ first_piece (make_mapper fs (pos i)))
      × (f.end_piece ≡ end_piece (make_mapper fs (pos i)))
files_from-pieces fs i h =
    let (first_is, end_is) = file_info-pieces fs i in
    (
      file_info fs i,
      files_from-get_elem fs 0 fs.num_files i h
          ∙ ap (λ (k : ℕ). some (file_info fs k)) (plus_zero i),
      first_is,
      end_is,
    )
  where
    plus_zero : (n : ℕ) → 0 + n ≡ n
    plus_zero n = omega arith

set-get_elem :
    (n i j : ℕ) (v w : ℕ)
    → j < n
    → get_elem? (set (replicate n w) i v) j ≡ some (if j == i then v else w)
set-get_elem zero i j v w h = absurd (omega arith)
set-get_elem (suc n) zero zero v w h = ground arith
set-get_elem (suc n) zero (suc j) v w h = rest n j (omega arith)
  where
    rest : (m k : ℕ) → k < m → get_elem? (replicate m w) k ≡ some (if suc k == 0 then v else w)
    rest zero k l = absurd (omega arith)
    rest (suc m) zero l = ground arith
    rest (suc m) (suc k) l = rest m k (omega arith) ∙ ground arith
set-get_elem (suc n) (suc i) zero v w h = ground arith
set-get_elem (suc n) (suc i) (suc j) v w h = set-get_elem n i j v w (omega arith) ∙ ground arith

-- Selecting a file that the torrent has gives this file the default priority and every other file of
-- the torrent none. Both indices are in range.
pub priorities-get_elem :
    (num_files i j : ℕ)
    → i < num_files
    → j < num_files
    → get_elem? (priorities num_files (pos i)) j
      ≡ some (if j == i then default_priority else dont_download)
unfolding priorities
priorities-get_elem num_files i j hi hj =
    set-get_elem num_files i j default_priority dont_download hj

selected_file-insert :
    (id id' : TorrentId) (entry : TorrentEntry) (catalog : Catalog)
    → selected_file id' (insert id entry catalog)
      ≡ (if bytes_eq id id' then entry.selected else selected_file id' catalog)
unfolding selected_file
selected_file-insert id id' entry catalog = elim (Bool-cases (bytes_eq id id')) [
  | inl same ↦ rw (lookup-insert id id' entry catalog, selected_file, same) refl
  | inr other ↦ rw (lookup-insert id id' entry catalog, selected_file, other) refl
]

-- After a selection that succeeds, the torrent's selected file is the chosen one, and the selection
-- of every other torrent is as before.
pub selected_file-select_file :
    (id id' : TorrentId) (fi : FileIndex) (catalog : Catalog) {ps : List ℕ}
    → (select_file id fi catalog).1 ≡ ok ps
    → selected_file id' (select_file id fi catalog).0
      ≡ (if bytes_eq id id' then some fi else selected_file id' catalog)
unfolding selected_file select_file
selected_file-select_file id id' fi catalog e = elim (Option-cases (lookup id catalog)) [
  | inl absent ↦ absurd (failed (rw (absent, select_file) at e))
  | inr (entry, present) ↦ elim (Bool-cases (out_of_range fi entry.files)) [
    | inl bad ↦ absurd (failed (rw (present, select_file, bad) at e))
    | inr good ↦
        rw (present, select_file, good)
          (selected_file-insert id id' (record entry { selected = some fi }) catalog)
  ]
]
  where
    failed : {c : _} {ps : List ℕ} → ◌≡◌ {A = Result (List ℕ)} (err c) (ok ps) → ⊥
    failed q = cc

-- A second metadata alert for a torrent changes nothing: its files and its selection stay.
pub on_metadata_received_again :
    (id : TorrentId) (ti ti' : TorrentInfo) (catalog : Catalog)
    → on_metadata_received id ti' (on_metadata_received id ti catalog)
      ≡ on_metadata_received id ti catalog
unfolding on_metadata_received
on_metadata_received_again id ti ti' catalog = elim (Option-cases (lookup id catalog)) [
  | inr (entry, present) ↦ rw (present, on_metadata_received, present) refl
  | inl absent ↦
      rw
        (
          absent,
          on_metadata_received,
          lookup-insert id id
              (record {
                info = ti;
                files = files_from ti.layout 0 ti.layout.num_files;
                selected = none;
              })
              catalog,
          bytes_eq_refl id,
        )
        refl
]
