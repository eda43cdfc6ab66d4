-- ===== src/Cache.antt =====
-- seekserve-core/src/offline_cache.cpp: `OfflineCacheManager`. SQLite is not part of the repository:
-- the two tables are lists of rows, each statement is the function that its SQL text describes, and
-- whether a statement can be prepared is a parameter. A prepared statement runs to its end. The float
-- `progress` is a ratio; `now` is the clock.
pub mod Quota
pub mod Rows
mod Tests
use seekserve.Common.{
  ℕ, zero, suc, ◌+◌, ◌-◌, Bool, true, false, not, ◌&&◌, ◌||◌, Option, none, some, List, [], ◌∷◌,
  ◌++◌, map, if◌then◌else◌, is_some,
}
use seekserve.Common.Int.{ℤ, pos, ltb_ℤ, leb_ℤ, eqb_ℤ}
use seekserve.Common.Bytes.{Bytes, bytes_eq}
use seekserve.Types.{TorrentId, FileIndex, FileInfo}
use seekserve.Availability.{Ratio}

pub record CacheEntry : Type 0 where
  pub torrent_id : TorrentId
  pub file_index : FileIndex
  pub file_path : Bytes
  pub file_size : ℕ
  pub progress : Ratio
  pub offline_ready : Bool
  pub last_access : ℕ
  pub added : ℕ

pub record TorrentRow : Type 0 where
  pub torrent_id : TorrentId
  pub uri : Bytes
  pub added_at : ℕ

pub data Statement : Type 0 where
  insert_entries update_progress mark_ready touch select_entries select_ready : Statement
  select_total select_lru delete_entry save_uri delete_uri select_uris : Statement

-- The tables, whether the database is open (`db_`), and which statements it prepares.
pub record Cache : Type 0 where
  pub is_open : Bool
  pub max_storage_bytes : ℤ
  pub prepares : Statement → Bool
  pub entries : List CacheEntry
  pub torrents : List TorrentRow

-- WHERE torrent_id = ? AND file_index = ?
unfoldable pub is_row : TorrentId → FileIndex → CacheEntry → Bool
unfolding bytes_eq
is_row id fi e = bytes_eq e.torrent_id id && eqb_ℤ e.file_index fi

unfoldable pub row_at : TorrentId → FileIndex → List CacheEntry → Option CacheEntry
unfolding is_row
row_at id fi [] = none
row_at id fi (e ∷ es) = if is_row id fi e then some e else row_at id fi es

-- UPDATE ... WHERE torrent_id = ? AND file_index = ?
unfoldable pub update_rows :
    TorrentId → FileIndex → (CacheEntry → CacheEntry) → List CacheEntry → List CacheEntry
unfolding is_row
update_rows id fi f [] = []
update_rows id fi f (e ∷ es) =
    let rest = update_rows id fi f es in if is_row id fi e then f e ∷ rest else e ∷ rest

-- Nothing happens without a database, or when the statement is not prepared.
abbrev pub runs : Cache → Statement → Cache → Cache
runs cache s then_cache = if cache.is_open && cache.prepares s then then_cache else cache

abbrev pub no_progress : Ratio
no_progress = record { part = 0; whole = 1 }

abbrev pub all_progress : Ratio
all_progress = record { part = 1; whole = 1 }

abbrev pub new_entry : TorrentId → ℕ → FileInfo → CacheEntry
new_entry id now f = record {
  torrent_id = id;
  file_index = pos f.index;
  file_path = f.path;
  file_size = f.size;
  progress = no_progress;
  offline_ready = false;
  last_access = now;
  added = now;
}

-- INSERT OR IGNORE: a row with the primary key stays as it is.
unfoldable pub insert_or_ignore : CacheEntry → List CacheEntry → List CacheEntry
unfolding row_at
insert_or_ignore e es = if is_some (row_at e.torrent_id e.file_index es) then es else es ++ (e ∷ [])

unfoldable pub insert_files : TorrentId → ℕ → List FileInfo → List CacheEntry → List CacheEntry
unfolding insert_or_ignore
insert_files id now [] es = es
insert_files id now (f ∷ fs) es = insert_files id now fs (insert_or_ignore (new_entry id now f) es)

unfoldable pub on_torrent_added : TorrentId → List FileInfo → ℕ → Cache → Cache
unfolding insert_files
on_torrent_added id files now cache =
    runs cache insert_entries (record cache { entries = insert_files id now files cache.entries })

unfoldable pub on_progress_update : TorrentId → FileIndex → Ratio → ℕ → Cache → Cache
unfolding update_rows
on_progress_update id fi progress now cache = runs cache update_progress (record cache {
  entries =
      update_rows id fi (λ e. record e { progress = progress; last_access = now }) cache.entries;
})

abbrev pub completed : ℕ → CacheEntry → CacheEntry
completed now e = record e { offline_ready = true; progress = all_progress; last_access = now }

unfoldable pub on_file_completed : TorrentId → FileIndex → ℕ → Cache → Cache
unfolding update_rows
on_file_completed id fi now cache =
    runs cache mark_ready
      (record cache { entries = update_rows id fi (completed now) cache.entries })

unfoldable pub on_access : TorrentId → FileIndex → ℕ → Cache → Cache
unfolding update_rows
on_access id fi now cache = runs cache touch (record cache {
  entries = update_rows id fi (λ e. record e { last_access = now }) cache.entries;
})

-- ORDER BY ... is a parameter: `by_access` returns the rows, the oldest access first.
unfoldable pub list_cached : (List CacheEntry → List CacheEntry) → Cache → List CacheEntry
list_cached by_access_desc cache =
    if cache.is_open && cache.prepares select_entries then by_access_desc cache.entries else []

unfoldable pub is_offline_ready : TorrentId → FileIndex → Cache → Bool
unfolding row_at
is_offline_ready id fi cache =
    if cache.is_open && cache.prepares select_ready
    then elim (row_at id fi cache.entries) [ none ↦ false | some e ↦ e.offline_ready ]
    else false

-- SUM(file_size)
unfoldable pub total_size : List CacheEntry → ℕ
total_size [] = 0
total_size (e ∷ es) = e.file_size + total_size es

-- The loop that collects the rows to delete.
unfoldable pub to_delete : List CacheEntry → ℕ → ℤ → List CacheEntry
to_delete [] total max_bytes = []
to_delete (e ∷ es) total max_bytes =
    let rest = to_delete es (total - e.file_size) max_bytes in
    if ltb_ℤ max_bytes (pos total) then e ∷ rest else []

-- DELETE ... WHERE torrent_id = ? AND file_index = ?
unfoldable pub delete_row : TorrentId → FileIndex → List CacheEntry → List CacheEntry
unfolding is_row
delete_row id fi [] = []
delete_row id fi (e ∷ es) =
    let rest = delete_row id fi es in if is_row id fi e then rest else e ∷ rest

unfoldable pub delete_rows : List CacheEntry → List CacheEntry → List CacheEntry
unfolding delete_row
delete_rows [] es = es
delete_rows (d ∷ ds) es = delete_rows ds (delete_row d.torrent_id d.file_index es)

unfoldable pub enforce_quota : (List CacheEntry → List CacheEntry) → Cache → Cache
unfolding total_size to_delete delete_rows
enforce_quota by_access cache =
    if not cache.is_open || leb_ℤ cache.max_storage_bytes (pos 0)
    then cache
    else if not (cache.prepares select_total)
    then cache
    else if leb_ℤ (pos (total_size cache.entries)) cache.max_storage_bytes
    then cache
    else if not (cache.prepares select_lru)
    then cache
    else if not (cache.prepares delete_entry)
    then cache
    else record cache {
      entries =
          delete_rows
            (to_delete (by_access cache.entries) (total_size cache.entries) cache.max_storage_bytes)
            cache.entries;
    }

unfoldable pub delete_torrent : TorrentId → List TorrentRow → List TorrentRow
unfolding bytes_eq
delete_torrent id [] = []
delete_torrent id (t ∷ ts) =
    let rest = delete_torrent id ts in if bytes_eq t.torrent_id id then rest else t ∷ rest

-- INSERT OR REPLACE
unfoldable pub save_torrent_uri : TorrentId → Bytes → ℕ → Cache → Cache
unfolding delete_torrent
save_torrent_uri id uri now cache = runs cache save_uri (record cache {
  torrents =
      delete_torrent id cache.torrents
      ++ (record { torrent_id = id; uri = uri; added_at = now } ∷ []);
})

unfoldable pub remove_torrent_uri : TorrentId → Cache → Cache
unfolding delete_torrent
remove_torrent_uri id cache =
    runs cache delete_uri (record cache { torrents = delete_torrent id cache.torrents })

abbrev pub id_and_uri : TorrentRow → TorrentId × Bytes
id_and_uri t = (t.torrent_id, t.uri)

unfoldable pub list_torrent_uris :
    (List TorrentRow → List TorrentRow) → Cache → List (TorrentId × Bytes)
list_torrent_uris by_added cache =
    if cache.is_open && cache.prepares select_uris
    then map id_and_uri (by_added cache.torrents)
    else []
