-- ===== src/Cache/Rows.antt =====
-- Which files are ready offline, and which torrents are saved.
use seekserve.Common.{
  ℕ, ◌≡◌, refl, sym, ap, ◌∙◌, Bool, true, false, ◌&&◌, Option, none, some, List, [], ◌∷◌, ◌++◌,
  arith, if◌then◌else◌, is_some, inl, inr, Bool-cases,
}
use seekserve.Common.Int.{eqb_ℤ}
use seekserve.Common.Bytes.{bytes_eq, bytes_eq_iff}
use seekserve.Types.{TorrentId, FileIndex, FileInfo}
use seekserve.Cache.{
  CacheEntry, Cache, is_row, row_at, update_rows, insert_or_ignore, insert_files, new_entry,
  completed, on_torrent_added, on_file_completed, is_offline_ready, insert_entries, mark_ready,
  select_ready,
}

abbrev ready_of : Option CacheEntry → Bool
ready_of none = false
ready_of (some e) = e.offline_ready

row_at-append :
    (id : TorrentId) (fi : FileIndex) (es : List CacheEntry) (d : CacheEntry)
    → d.offline_ready ≡ false
    → ready_of (row_at id fi (es ++ (d ∷ []))) ≡ ready_of (row_at id fi es)
unfolding row_at
row_at-append id fi [] d h = ground arith
row_at-append id fi (e ∷ es) d h = ground (arith, row_at-append id fi es d h)

insert_or_ignore-ready :
    (id : TorrentId) (fi : FileIndex) (d : CacheEntry) (es : List CacheEntry)
    → d.offline_ready ≡ false
    → ready_of (row_at id fi (insert_or_ignore d es)) ≡ ready_of (row_at id fi es)
unfolding insert_or_ignore
insert_or_ignore-ready id fi d es h =
    elim (Bool-cases (is_some (row_at d.torrent_id d.file_index es))) [
      | inl there ↦ rw (there, insert_or_ignore) refl
      | inr new ↦ rw (new, insert_or_ignore) (row_at-append id fi es d h)
    ]

insert_files-ready :
    (id : TorrentId) (fi : FileIndex) (id' : TorrentId) (now : ℕ) (fs : List FileInfo)
    (es : List CacheEntry)
    → ready_of (row_at id fi (insert_files id' now fs es)) ≡ ready_of (row_at id fi es)
unfolding insert_files
insert_files-ready id fi id' now [] es = refl
insert_files-ready id fi id' now (f ∷ fs) es =
    insert_files-ready id fi id' now fs (insert_or_ignore (new_entry id' now f) es) ∙ one
  where
    one :
        ready_of (row_at id fi (insert_or_ignore (new_entry id' now f) es))
        ≡ ready_of (row_at id fi es)
    one = insert_or_ignore-ready id fi (new_entry id' now f) es refl

-- Adding a torrent again, or another one, changes for no file whether it is ready offline.
pub is_offline_ready-on_torrent_added :
    (id id' : TorrentId) (fi : FileIndex) (files : List FileInfo) (now : ℕ) (cache : Cache)
    → is_offline_ready id fi (on_torrent_added id' files now cache) ≡ is_offline_ready id fi cache
unfolding is_offline_ready on_torrent_added
is_offline_ready-on_torrent_added id id' fi files now cache =
    elim (Bool-cases (cache.is_open && cache.prepares insert_entries)) [
      | inr off ↦ rw off refl
      | inl on ↦ elim (Bool-cases (cache.is_open && cache.prepares select_ready)) [
        | inr blind ↦ rw (on, blind) refl
        | inl sees ↦
            rw (on, sees)
              (ready_ap (row_at id fi (insert_files id' now files cache.entries))
                (row_at id fi cache.entries) (insert_files-ready id fi id' now files cache.entries))
      ]
    ]
  where
    ready_ap :
        (o p : Option CacheEntry)
        → ready_of o ≡ ready_of p
        → elim o [ none ↦ false | some e ↦ e.offline_ready ]
          ≡ elim p [ none ↦ false | some e ↦ e.offline_ready ]
    ready_ap none none h = h
    ready_ap none (some e) h = h
    ready_ap (some e) none h = h
    ready_ap (some e) (some d) h = h

-- Whether two pairs of torrent and file are the same.
abbrev pub same_file : TorrentId → FileIndex → TorrentId → FileIndex → Bool
same_file id fi id' fi' = bytes_eq id id' && eqb_ℤ fi fi'

is_row-same :
    (id id' : TorrentId) (fi fi' : FileIndex) (e : CacheEntry)
    → is_row id fi e ≡ true
    → is_row id' fi' e ≡ same_file id fi id' fi'
unfolding is_row
is_row-same id id' fi fi' e h =
    ground
      (arith, bytes_eq_iff e.torrent_id id, bytes_eq_iff e.torrent_id id', bytes_eq_iff id id', h)

is_row-other :
    (id id' : TorrentId) (fi fi' : FileIndex) (e : CacheEntry)
    → same_file id fi id' fi' ≡ true
    → is_row id fi e ≡ is_row id' fi' e
unfolding is_row
is_row-other id id' fi fi' e h =
    ground
      (arith, bytes_eq_iff e.torrent_id id, bytes_eq_iff e.torrent_id id', bytes_eq_iff id id', h)

is_row-completed :
    (id : TorrentId) (fi : FileIndex) (now : ℕ) (e : CacheEntry)
    → is_row id fi (completed now e) ≡ is_row id fi e
unfolding is_row
is_row-completed id fi now e = refl

other_branch : (b y : Bool) {x z : Bool} → b ≡ false → x ≡ (if b then y else z) → x ≡ z
other_branch true y e h = cc
other_branch false y e h = h

update_rows-ready :
    (id id' : TorrentId) (fi fi' : FileIndex) (now : ℕ) (es : List CacheEntry)
    → ready_of (row_at id' fi' (update_rows id fi (completed now) es)) ≡ (
        if same_file id fi id' fi' then is_some (row_at id fi es) else ready_of (row_at id' fi' es))
unfolding row_at update_rows
update_rows-ready id id' fi fi' now [] = ground arith
update_rows-ready id id' fi fi' now (e ∷ es) = elim (Bool-cases (is_row id fi e)) [
  | inl hit ↦ elim (Bool-cases (same_file id fi id' fi')) [
    | inl same ↦
        rw
          (
            hit,
            update_rows,
            row_at,
            same,
            is_row-completed id' fi' now e,
            is_row-same id id' fi fi' e hit,
            same,
          )
          refl
    | inr apart ↦
        rw
          (
            hit,
            update_rows,
            row_at,
            apart,
            is_row-completed id' fi' now e,
            is_row-same id id' fi fi' e hit,
            apart,
          )
          (other_branch (same_file id fi id' fi') (is_some (row_at id fi es)) apart
            (update_rows-ready id id' fi fi' now es))
  ]
  | inr miss ↦
      ground (arith, miss, update_rows-ready id id' fi fi' now es, is_row-other id id' fi fi' e)
]

-- A file that is completed is ready offline if the cache has a row of it; no other file changes. The
-- database is open and takes the two statements.
pub is_offline_ready-on_file_completed :
    (id id' : TorrentId) (fi fi' : FileIndex) (now : ℕ) (cache : Cache)
    → cache.is_open ≡ true
    → cache.prepares mark_ready ≡ true
    → cache.prepares select_ready ≡ true
    → is_offline_ready id' fi' (on_file_completed id fi now cache) ≡ (
        if same_file id fi id' fi'
        then is_some (row_at id fi cache.entries)
        else is_offline_ready id' fi' cache)
unfolding is_offline_ready on_file_completed
is_offline_ready-on_file_completed id id' fi fi' now cache opened marks sees =
    rw (opened, marks, sees)
      (as_elim (row_at id' fi' (update_rows id fi (completed now) cache.entries))
        ∙ update_rows-ready id id' fi fi' now cache.entries
        ∙ ap
            (λ (b : Bool).
              if same_file id fi id' fi' then is_some (row_at id fi cache.entries) else b)
            (sym (as_elim (row_at id' fi' cache.entries))))
  where
    as_elim :
        (o : Option CacheEntry) → elim o [ none ↦ false | some e ↦ e.offline_ready ] ≡ ready_of o
    as_elim none = refl
    as_elim (some e) = refl
