-- ===== src/Catalog.antt =====
-- seekserve-core/src/metadata_catalog.cpp: `MetadataCatalog`. lt::torrent_info is its file storage and
-- the number of pieces; the call of prioritize_files is part of the result of `select_file`.
pub mod Laws
mod Tests
use seekserve.Common.{
  ℕ, zero, suc, ◌+◌, ◌-◌, Bool, true, false, not, ◌||◌, Option, none, some, List, [], ◌∷◌, ltb, leb,
  if◌then◌else◌, is_some, length, replicate, set, get_elem?,
}
use seekserve.Common.Int.{ℤ, pos, ltb_ℤ, leb_ℤ, pos_part, next}
use seekserve.Common.Assoc.{Assoc, lookup, insert, erase}
use seekserve.Types.{
  TorrentId, FileIndex, FileInfo, Result, ok, err, metadata_not_ready, file_not_found,
}
use seekserve.Mapper.{FileStorage, PeerRequest}

pub record TorrentInfo : Type 0 where
  pub layout : FileStorage
  pub num_pieces : ℕ

pub record TorrentEntry : Type 0 where
  pub info : TorrentInfo
  pub files : List FileInfo
  pub selected : Option FileIndex

abbrev pub Catalog : Type 0
Catalog = Assoc TorrentEntry

-- One round of the loop over the files.
unfoldable pub file_info : FileStorage → ℕ → FileInfo
file_info fs i = record {
  index = i;
  path = fs.file_path (pos i);
  size = fs.file_size (pos i);
  offset_in_torrent = fs.file_offset (pos i);
  first_piece = (fs.map_file (pos i) (pos 0) 1).piece;
  end_piece =
      if ltb 0 (fs.file_size (pos i))
      then next (fs.map_file (pos i) (pos (fs.file_size (pos i) - 1)) 1).piece
      else (fs.map_file (pos i) (pos 0) 1).piece;
}

-- The `n` files from `i` on.
unfoldable pub files_from : FileStorage → ℕ → ℕ → List FileInfo
unfolding file_info
files_from fs i zero = []
files_from fs i (suc n) = file_info fs i ∷ files_from fs (suc i) n

unfoldable pub on_metadata_received : TorrentId → TorrentInfo → Catalog → Catalog
unfolding lookup insert files_from
on_metadata_received id ti catalog =
    if is_some (lookup id catalog)
    then catalog
    else insert id
        (record { info = ti; files = files_from ti.layout 0 ti.layout.num_files; selected = none })
        catalog

unfoldable pub remove : TorrentId → Catalog → Catalog
unfolding erase
remove id catalog = erase id catalog

unfoldable pub list_files : TorrentId → Catalog → Result (List FileInfo)
unfolding lookup
list_files id catalog = elim (lookup id catalog) [
  | none ↦ err metadata_not_ready
  | some entry ↦ ok entry.files
]

-- fi < 0 || fi >= files.size()
abbrev pub out_of_range : FileIndex → List FileInfo → Bool
out_of_range fi files = ltb_ℤ fi (pos 0) || leb_ℤ (pos (length files)) fi

-- files[fi], behind the range check
abbrev pub file_at : List FileInfo → FileIndex → Result FileInfo
file_at files fi = elim (get_elem? files (pos_part fi)) [
  | none ↦ err file_not_found
  | some file ↦ ok file
]

unfoldable pub get_file : TorrentId → FileIndex → Catalog → Result FileInfo
unfolding lookup
get_file id fi catalog = elim (lookup id catalog) [
  | none ↦ err metadata_not_ready
  | some entry ↦ if out_of_range fi entry.files then err file_not_found else file_at entry.files fi
]

abbrev pub dont_download : ℕ
dont_download = 0

abbrev pub default_priority : ℕ
default_priority = 4

unfoldable pub priorities : ℕ → FileIndex → List ℕ
priorities num_files fi = set (replicate num_files dont_download) (pos_part fi) default_priority

-- The catalog behind the call, and the priorities that the torrent's handle is given.
unfoldable pub select_file : TorrentId → FileIndex → Catalog → Catalog × Result (List ℕ)
unfolding lookup insert priorities
select_file id fi catalog = elim (lookup id catalog) [
  | none ↦ (catalog, err metadata_not_ready)
  | some entry ↦ if out_of_range fi entry.files then (catalog, err file_not_found) else (
    insert id (record entry { selected = some fi }) catalog,
    ok (priorities (length entry.files) fi),
  )
]

unfoldable pub selected_file : TorrentId → Catalog → Option FileIndex
unfolding lookup
selected_file id catalog = elim (lookup id catalog) [ none ↦ none | some entry ↦ entry.selected ]

unfoldable pub torrent_info : TorrentId → Catalog → Option TorrentInfo
unfolding lookup
torrent_info id catalog = elim (lookup id catalog) [ none ↦ none | some entry ↦ some entry.info ]

unfoldable pub has_metadata : TorrentId → Catalog → Bool
unfolding lookup
has_metadata id catalog = is_some (lookup id catalog)
