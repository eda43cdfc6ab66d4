-- ===== src/Engine/Selection.antt =====
-- engine.cpp: `select_file`.
use seekserve.Common.{ℕ, zero, suc, ◌-◌, ◌*◌, Option, none, some, List, [], if◌then◌else◌}
use seekserve.Common.Int.{pos, leb_ℤ}
use seekserve.Common.Bytes.{Bytes}
use seekserve.Common.Assoc.{lookup, insert}
use seekserve.Types.{
  TorrentId, FileIndex, FileInfo, Result, ok, err, torrent_not_found, metadata_not_ready,
}
use seekserve.Availability.{PieceAvailability, unset, reset, mark_complete}
use seekserve.Scheduler.{SchedulerConfig, make_scheduler}
use seekserve.Mapper.{make_mapper}
use seekserve.Http.Registry.{Server, set_byte_source, remove_byte_source, set_range_callback}
use seekserve.Catalog.{Catalog, TorrentInfo, get_file, torrent_info, select_file as catalog_select}
use seekserve.Session.{Libtorrent, get_handle}
use seekserve.Engine.State.{TorrentState, Engine, on_server, valid_handle}

-- The loop that marks the pieces already on disk, for the pieces from 0 below `n`.
unfoldable pub mark_present : Libtorrent → ℕ → ℕ → PieceAvailability → PieceAvailability
unfolding mark_complete
mark_present lt handle zero avail = avail
mark_present lt handle (suc n) avail =
    let before = mark_present lt handle n avail in
    if lt.has_piece handle n then mark_complete before (pos n) else before

unfoldable pub new_state :
    Libtorrent → SchedulerConfig → ℕ → ℕ → TorrentInfo → FileIndex → ℕ → TorrentState
unfolding reset mark_present make_mapper make_scheduler
new_state lt config now handle ti fi pointer =
    let fs = ti.layout in
    let last_piece_size = fs.total_size - (ti.num_pieces - 1) * fs.piece_length in
    record {
      avail =
          mark_present lt handle ti.num_pieces
            (reset ti.num_pieces fs.piece_length last_piece_size unset);
      mapper = make_mapper fs fi;
      scheduler = make_scheduler config (make_mapper fs fi) now;
      pointer = pointer;
      selected_file = fi;
    }

-- The previous selection's source leaves the server.
abbrev pub drop_old : TorrentId → Option TorrentState → Option Server → Option Server
drop_old id none server = server
drop_old id (some old) server =
    if leb_ℤ (pos 0) old.selected_file
    then on_server (remove_byte_source id old.selected_file) server
    else server

-- set_byte_source and set_range_callback on a running server.
abbrev pub register : ℕ → TorrentId → FileIndex → Bytes → Server → Server
register pointer id fi path sv =
    set_range_callback (some pointer) (set_byte_source pointer id fi path sv)

abbrev pub path_of : Result FileInfo → Bytes
path_of (err e) = []
path_of (ok file) = file.path

-- The state of the selection and its source, with the metadata that the catalog has.
abbrev pub install_info :
    Libtorrent
    → ℕ
    → ℕ
    → TorrentId
    → FileIndex
    → Engine
    → Option TorrentInfo
    → Engine × Result (Unit {0})
install_info lt now handle id fi en none = (
  record en { http_server = drop_old id (lookup id en.states) en.http_server },
  err metadata_not_ready,
)
install_info lt now handle id fi en (some ti) = (
  record en {
    http_server =
        on_server (register en.fresh id fi (path_of (get_file id fi en.catalog)))
          (drop_old id (lookup id en.states) en.http_server);
    states = insert id (new_state lt en.config.scheduler now handle ti fi en.fresh) en.states;
    fresh = suc en.fresh;
  },
  ok tt,
)

-- Behind the catalog's `select_file`, which succeeded.
unfoldable pub install :
    Libtorrent → ℕ → ℕ → TorrentId → FileIndex → Engine → Engine × Result (Unit {0})
unfolding torrent_info get_file lookup insert new_state remove_byte_source set_byte_source
    set_range_callback
install lt now handle id fi en = install_info lt now handle id fi en (torrent_info id en.catalog)

-- What follows the catalog's answer.
abbrev pub selected :
    Libtorrent
    → ℕ
    → ℕ
    → TorrentId
    → FileIndex
    → Engine
    → Catalog
    → Result (List ℕ)
    → Engine × Result (Unit {0})
selected lt now handle id fi en catalog (err e) = (en, err e)
selected lt now handle id fi en catalog (ok priorities) =
    install lt now handle id fi (record en { catalog = catalog })

unfoldable pub select_file :
    Libtorrent → ℕ → TorrentId → FileIndex → Engine → Engine × Result (Unit {0})
unfolding catalog_select install get_handle
select_file lt now id fi en = elim (valid_handle lt id en) [
  | none ↦ (en, err torrent_not_found)
  | some handle ↦
      let (catalog, result) = catalog_select id fi en.catalog in
      selected lt now handle id fi en catalog result
]
