-- ===== src/Demo/Handlers.antt =====
-- main.cpp: the handlers of alerts that `main` registers with the session's dispatcher, and what they
-- change.
use seekserve.Common.{
  ℕ, suc, ◌≡◌, ◌≢◌, refl, sym, subst, ◌∙◌, Bool, true, false, Option, none, some, List, [], ◌∷◌,
}
use seekserve.Types.{TorrentId}
use seekserve.Availability.{PieceAvailability, mark_complete}
use seekserve.Catalog.{Catalog, TorrentInfo, on_metadata_received}
use seekserve.Cache.{Cache, on_file_completed}
use seekserve.Scheduler.{Scheduler, on_piece_complete}
use seekserve.Dispatcher.{Handled, Handlers, assign, on, handle, dispatch}
use seekserve.Dispatcher.Laws.{handle-nil, handle-on, handle-on_other, handle-on_either}
use seekserve.Engine.Wiring.{
  AlertTypes, Alert, metadata_received_alert, add_torrent_alert, piece_finished_alert,
  file_completed_alert, other_alert, type_of,
}

-- What the handlers of `main` refer to; `notices` counts the calls of the byte source's notification.
pub record Demo : Type 0 where
  pub catalog : Catalog
  pub metadata_ready : Bool
  pub avail : PieceAvailability
  pub notices : ℕ
  pub scheduler : Scheduler
  pub cache : Cache

abbrev pub returns : Demo → Handled Demo
returns d = record { state = d; threw = false }

abbrev pub receive : TorrentId → TorrentInfo → Demo → Demo
receive id ti d = record d { catalog = on_metadata_received id ti d.catalog; metadata_ready = true }

abbrev pub on_metadata : Alert → Demo → Handled Demo
on_metadata (metadata_received_alert id ti now) d = returns (receive id ti d)
on_metadata (add_torrent_alert failed info now) d = returns d
on_metadata (piece_finished_alert id p) d = returns d
on_metadata (file_completed_alert id fi now) d = returns d
on_metadata (other_alert n) d = returns d

abbrev pub on_added : Alert → Demo → Handled Demo
on_added (add_torrent_alert true info now) d = returns d
on_added (add_torrent_alert false none now) d = returns d
on_added (add_torrent_alert false (some (id, ti)) now) d = returns (receive id ti d)
on_added (metadata_received_alert id ti now) d = returns d
on_added (piece_finished_alert id p) d = returns d
on_added (file_completed_alert id fi now) d = returns d
on_added (other_alert n) d = returns d

-- The three handlers of piece_finished_alert, in the order of their registration.
abbrev pub mark_piece : Alert → Demo → Handled Demo
mark_piece (piece_finished_alert id p) d = returns (record d { avail = mark_complete d.avail p })
mark_piece (metadata_received_alert id ti now) d = returns d
mark_piece (add_torrent_alert failed info now) d = returns d
mark_piece (file_completed_alert id fi now) d = returns d
mark_piece (other_alert n) d = returns d

abbrev pub notify_source : Alert → Demo → Handled Demo
notify_source (piece_finished_alert id p) d = returns (record d { notices = suc d.notices })
notify_source (metadata_received_alert id ti now) d = returns d
notify_source (add_torrent_alert failed info now) d = returns d
notify_source (file_completed_alert id fi now) d = returns d
notify_source (other_alert n) d = returns d

abbrev pub tell_scheduler : Alert → Demo → Handled Demo
tell_scheduler (piece_finished_alert id p) d =
    returns (record d { scheduler = on_piece_complete d.scheduler p })
tell_scheduler (metadata_received_alert id ti now) d = returns d
tell_scheduler (add_torrent_alert failed info now) d = returns d
tell_scheduler (file_completed_alert id fi now) d = returns d
tell_scheduler (other_alert n) d = returns d

-- The cache's row is that of the torrent that was added.
abbrev pub complete_file : TorrentId → Alert → Demo → Handled Demo
complete_file torrent_id (file_completed_alert id fi now) d =
    returns (record d { cache = on_file_completed torrent_id fi now d.cache })
complete_file torrent_id (metadata_received_alert id ti now) d = returns d
complete_file torrent_id (add_torrent_alert failed info now) d = returns d
complete_file torrent_id (piece_finished_alert id p) d = returns d
complete_file torrent_id (other_alert n) d = returns d

-- The table before a file is selected, and behind the last registration.
unfoldable pub wire_metadata : AlertTypes → Handlers Alert Demo
unfolding assign
wire_metadata types =
    on (type_of types) types.add_torrent on_added
      (on (type_of types) types.metadata_received on_metadata [])

unfoldable pub wire_pieces : AlertTypes → Handlers Alert Demo
unfolding assign wire_metadata
wire_pieces types =
    on (type_of types) types.piece_finished notify_source
      (on (type_of types) types.piece_finished mark_piece (wire_metadata types))

unfoldable pub wire_scheduler : AlertTypes → Handlers Alert Demo
unfolding assign wire_pieces
wire_scheduler types = on (type_of types) types.piece_finished tell_scheduler (wire_pieces types)

unfoldable pub wire_all : AlertTypes → TorrentId → Handlers Alert Demo
unfolding assign wire_scheduler
wire_all types torrent_id =
    on (type_of types) types.file_completed (complete_file torrent_id) (wire_scheduler types)

-- The flags of the pieces and the notices are as they were.
abbrev pub SameFlags : Demo → Demo → Type 0
SameFlags d d' = (d'.avail ≡ d.avail) × (d'.notices ≡ d.notices)

module _ (types : AlertTypes) (torrent_id : TorrentId) where
  -- An alert of another class than piece_finished_alert changes neither, by every handler.
  module _ (a : Alert) (d : Demo) (quiet_metadata : SameFlags d (on_metadata a d).state)
      (quiet_added : SameFlags d (on_added a d).state)
      (quiet_mark : SameFlags d (mark_piece a d).state)
      (quiet_notify : SameFlags d (notify_source a d).state)
      (quiet_scheduler : SameFlags d (tell_scheduler a d).state)
      (quiet_file : SameFlags d (complete_file torrent_id a d).state) where
    wire_all-SameFlags : SameFlags d (handle (type_of types) (wire_all types torrent_id) a d)
    unfolding wire_all wire_scheduler wire_pieces wire_metadata
    wire_all-SameFlags =
        handle-on_either (type_of types) (SameFlags d) types.file_completed
          (complete_file torrent_id) (wire_scheduler types) a d quiet_file
          (handle-on_either (type_of types) (SameFlags d) types.piece_finished tell_scheduler
            (wire_pieces types) a d quiet_scheduler
            (handle-on_either (type_of types) (SameFlags d) types.piece_finished notify_source
              (on (type_of types) types.piece_finished mark_piece (wire_metadata types)) a d
              quiet_notify
              (handle-on_either (type_of types) (SameFlags d) types.piece_finished mark_piece
                (wire_metadata types) a d quiet_mark
                (handle-on_either (type_of types) (SameFlags d) types.add_torrent on_added
                  (on (type_of types) types.metadata_received on_metadata []) a d quiet_added
                  (handle-on_either (type_of types) (SameFlags d) types.metadata_received
                    on_metadata [] a d quiet_metadata
                    (subst (SameFlags d) (sym (handle-nil (type_of types) a d)) (refl, refl)))))))

  module _ (apart : types.file_completed ≢ types.piece_finished) where
    handle-SameFlags :
        (a : Alert) (d : Demo)
        → SameFlags d (handle (type_of types) (wire_all types torrent_id) a d)
    unfolding wire_all wire_scheduler
    handle-SameFlags (piece_finished_alert id p) d =
        subst (SameFlags d)
          (sym (
            handle-on_other (type_of types) types.file_completed (complete_file torrent_id)
              (wire_scheduler types) (piece_finished_alert id p) d apart
            ∙ handle-on (type_of types) types.piece_finished tell_scheduler (wire_pieces types)
                (piece_finished_alert id p) d refl))
          (refl, refl)
    handle-SameFlags (metadata_received_alert id ti now) d =
        wire_all-SameFlags (metadata_received_alert id ti now) d (refl, refl) (refl, refl)
          (refl, refl) (refl, refl) (refl, refl) (refl, refl)
    handle-SameFlags (add_torrent_alert failed info now) d =
        wire_all-SameFlags (add_torrent_alert failed info now) d (refl, refl)
          (on_added-SameFlags failed info now) (refl, refl) (refl, refl) (refl, refl) (refl, refl)
      where
        on_added-SameFlags :
            (failed : Bool) (info : Option (TorrentId × TorrentInfo)) (now : ℕ)
            → SameFlags d (on_added (add_torrent_alert failed info now) d).state
        on_added-SameFlags true info now = (refl, refl)
        on_added-SameFlags false none now = (refl, refl)
        on_added-SameFlags false (some (id, ti)) now = (refl, refl)
    handle-SameFlags (file_completed_alert id fi now) d =
        wire_all-SameFlags (file_completed_alert id fi now) d (refl, refl) (refl, refl) (refl, refl)
          (refl, refl) (refl, refl) (refl, refl)
    handle-SameFlags (other_alert n) d =
        wire_all-SameFlags (other_alert n) d (refl, refl) (refl, refl) (refl, refl) (refl, refl)
          (refl, refl) (refl, refl)

    -- Once `main` has registered its handlers, no alert marks a piece as complete and none notifies the byte
    -- source: of the three handlers of piece_finished_alert only the last is in the table. The numbers of
    -- file_completed_alert and piece_finished_alert differ.
    pub dispatch-SameFlags :
        (as' : List Alert) (d : Demo)
        → SameFlags d (dispatch (type_of types) (wire_all types torrent_id) as' d)
    unfolding dispatch
    dispatch-SameFlags [] d = (refl, refl)
    dispatch-SameFlags (a ∷ as') d =
        let now = handle-SameFlags a d in
        let later =
          dispatch-SameFlags as' (handle (type_of types) (wire_all types torrent_id) a d) in
        (later.0 ∙ now.0, later.1 ∙ now.1)
