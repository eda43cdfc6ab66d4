-- ===== src/Engine/Gone.antt =====
-- A torrent that has been removed, and the steps that keep it so.
use seekserve.Common.{
  ℕ, ◌≡◌, ◌≢◌, refl, sym, ap, ◌∙◌, Bool, true, false, Option, none, some, List, arith, is_some, inl,
  inr, Bool-cases, Option-cases,
}
use seekserve.Common.Bytes.{bytes_eq, bytes_eq_iff}
use seekserve.Common.Assoc.{lookup, lookup-insert}
use seekserve.Types.{TorrentId, FileIndex, PieceIndex, Result, ok, err}
use seekserve.Catalog.{
  Catalog, TorrentInfo, TorrentEntry, on_metadata_received, torrent_info, out_of_range,
  select_file as catalog_select,
}
use seekserve.Session.{Libtorrent}
use seekserve.Engine.State.{Engine, Event, is_removed, valid_handle}
use seekserve.Engine.Alerts.{on_metadata_alert, on_add_alert, on_piece_alert}
use seekserve.Engine.Torrents.{notify_handle}
use seekserve.Engine.Selection.{select_file, selected, install}

-- Marked as removed, and not in the catalog.
pub record Gone (id : TorrentId) (en : Engine) : Type 0 where
  pub marked : is_removed id en.removed_ids ≡ true
  pub absent : lookup id en.catalog ≡ none

-- A change that keeps the marks and the catalog.
pub Gone-same :
    (id : TorrentId) {en en' : Engine}
    → Gone id en
    → en'.removed_ids ≡ en.removed_ids
    → en'.catalog ≡ en.catalog
    → Gone id en'
Gone-same id g same_marks same_catalog = record {
  marked = ap (is_removed id) same_marks ∙ g.marked;
  absent = ap (lookup id) same_catalog ∙ g.absent;
}

unmarked :
    (id id' : TorrentId) (ids : List TorrentId)
    → is_removed id ids ≡ true
    → is_removed id' ids ≡ false
    → bytes_eq id' id ≡ false
unmarked id id' ids h h' = elim (Bool-cases (bytes_eq id' id)) [
  | inr apart ↦ apart
  | inl same ↦ absurd (
      ground
        (arith, h, h', ap (λ (j : TorrentId). is_removed j ids) ((bytes_eq_iff id' id).0 same)))
]

on_metadata_received-absent :
    (id id' : TorrentId) (ti : TorrentInfo) (catalog : Catalog)
    → bytes_eq id' id ≡ false
    → lookup id catalog ≡ none
    → lookup id (on_metadata_received id' ti catalog) ≡ none
unfolding on_metadata_received
on_metadata_received-absent id id' ti catalog apart gone =
    elim (Bool-cases (is_some (lookup id' catalog))) [
      | inl there ↦ rw (there, on_metadata_received) gone
      | inr new ↦ rw (new, on_metadata_received) (lookup-insert id' id _ catalog ∙ rw apart gone)
    ]

pub on_metadata_alert-Gone :
    (id id' : TorrentId) (ti : TorrentInfo) (now : ℕ) (en : Engine)
    → Gone id en
    → Gone id (on_metadata_alert id' ti now en)
unfolding on_metadata_alert
on_metadata_alert-Gone id id' ti now en g = elim (Bool-cases (is_removed id' en.removed_ids)) [
  | inl removed ↦ rw (removed, on_metadata_alert) g
  | inr fresh ↦
      rw (fresh, on_metadata_alert)
        (record {
          marked = g.marked;
          absent =
              on_metadata_received-absent id id' ti en.catalog
                (unmarked id id' en.removed_ids g.marked fresh) g.absent;
        })
]

pub on_add_alert-Gone :
    (id : TorrentId) (failed : Bool) (info : Option (TorrentId × TorrentInfo)) (now : ℕ)
    (en : Engine)
    → Gone id en
    → Gone id (on_add_alert failed info now en)
unfolding on_add_alert
on_add_alert-Gone id true info now en g = Gone-same id g refl refl
on_add_alert-Gone id false none now en g = g
on_add_alert-Gone id false (some (id', ti)) now en g = on_metadata_alert-Gone id id' ti now en g

pub on_piece_alert-Gone :
    (id id' : TorrentId) (p : PieceIndex) (en : Engine)
    → Gone id en
    → Gone id (on_piece_alert id' p en)
unfolding on_piece_alert
on_piece_alert-Gone id id' p en g = elim (Option-cases (lookup id' en.states)) [
  | inl none_there ↦ rw (none_there, on_piece_alert) g
  | inr (state, there) ↦ rw (there, on_piece_alert) (Gone-same id g refl refl)
]

pub notify_handle-Gone :
    (id : TorrentId) (lt : Libtorrent) (event : TorrentId → Event) (id' : TorrentId) (en : Engine)
    → Gone id en
    → Gone id (notify_handle lt event id' en).0
unfolding notify_handle
notify_handle-Gone id lt event id' en g = elim (Option-cases (valid_handle lt id' en)) [
  | inl invalid ↦ rw (invalid, notify_handle) g
  | inr (handle, valid) ↦ rw (valid, notify_handle) (Gone-same id g refl refl)
]

install-Gone :
    (id : TorrentId) (lt : Libtorrent) (now handle : ℕ) (id' : TorrentId) (fi : FileIndex)
    (en : Engine)
    → Gone id en
    → Gone id (install lt now handle id' fi en).0
unfolding install
install-Gone id lt now handle id' fi en g = elim (Option-cases (torrent_info id' en.catalog)) [
  | inl missing ↦ rw (missing, install) (Gone-same id g refl refl)
  | inr (ti, there) ↦ rw (there, install) (Gone-same id g refl refl)
]

present_apart :
    (id id' : TorrentId) (entry : TorrentEntry) (catalog : Catalog)
    → lookup id' catalog ≡ some entry
    → lookup id catalog ≡ none
    → bytes_eq id' id ≡ false
present_apart id id' entry catalog there gone = elim (Bool-cases (bytes_eq id' id)) [
  | inr apart ↦ apart
  | inl same ↦
      let same_id = (bytes_eq_iff id' id).0 same in
      absurd (apart_options (sym there ∙ ap (λ (j : TorrentId). lookup j catalog) same_id ∙ gone))
]
  where
    apart_options : some entry ≢ none
    apart_options e = cc

-- A selection puts nothing into the catalog that was not there.
pub catalog_select-absent :
    (id id' : TorrentId) (fi : FileIndex) (catalog : Catalog)
    → lookup id catalog ≡ none
    → lookup id (catalog_select id' fi catalog).0 ≡ none
unfolding catalog_select
catalog_select-absent id id' fi catalog gone = elim (Option-cases (lookup id' catalog)) [
  | inl missing ↦ rw (missing, catalog_select) gone
  | inr (entry, there) ↦ elim (Bool-cases (out_of_range fi entry.files)) [
    | inl bad ↦ rw (there, catalog_select, bad) gone
    | inr good ↦
        rw (there, catalog_select, good)
          (lookup-insert id' id _ catalog ∙ rw (present_apart id id' entry catalog there gone) gone)
  ]
]

selected-Gone :
    (id : TorrentId) (lt : Libtorrent) (now handle : ℕ) (id' : TorrentId) (fi : FileIndex)
    (en : Engine) (catalog : Catalog) (r : Result (List ℕ))
    → Gone id en
    → lookup id catalog ≡ none
    → Gone id (selected lt now handle id' fi en catalog r).0
selected-Gone id lt now handle id' fi en catalog (err e) g gone = g
selected-Gone id lt now handle id' fi en catalog (ok ps) g gone =
    install-Gone id lt now handle id' fi (record en { catalog = catalog })
      (record { marked = g.marked; absent = gone })

pub select_file-Gone :
    (id : TorrentId) (lt : Libtorrent) (now : ℕ) (id' : TorrentId) (fi : FileIndex) (en : Engine)
    → Gone id en
    → Gone id (select_file lt now id' fi en).0
unfolding select_file
select_file-Gone id lt now id' fi en g = elim (Option-cases (valid_handle lt id' en)) [
  | inl invalid ↦ rw (invalid, select_file) g
  | inr (handle, valid) ↦
      rw (valid, select_file)
        (selected-Gone id lt now handle id' fi en (catalog_select id' fi en.catalog).0
          (catalog_select id' fi en.catalog).1 g
          (catalog_select-absent id id' fi en.catalog g.absent))
]
