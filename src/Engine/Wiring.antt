-- ===== src/Engine/Wiring.antt =====
-- engine.cpp: `wire_alerts`, the four handlers in the dispatcher's table. The numbers of libtorrent's
-- alert types are parameters.
use seekserve.Common.{ℕ, ◌≡◌, ◌≢◌, refl, sym, ap, ◌∙◌, Bool, false, Option, List, [], ◌∷◌, ◌++◌}
use seekserve.Types.{TorrentId, FileIndex, PieceIndex}
use seekserve.Catalog.{TorrentInfo}
use seekserve.Dispatcher.{Handled, Round, Handlers, assign, on, handle, dispatch, run}
use seekserve.Dispatcher.Laws.{
  handle-nil, handle-on, handle-on_other, handle-on_quiet, IsRunning, rounds_alerts, run-append,
}
use seekserve.Engine.State.{Engine}
use seekserve.Engine.Alerts.{on_metadata_alert, on_add_alert, on_piece_alert, on_file_alert}
use seekserve.Engine.Ops.{Op, metadata, added, piece, file, step, run_ops}

pub record AlertTypes : Type 0 where
  pub metadata_received : ℕ
  pub add_torrent : ℕ
  pub piece_finished : ℕ
  pub file_completed : ℕ

-- An alert with what its handler reads of it; `other_alert` has a type without a handler.
pub data Alert : Type 0 where
  metadata_received_alert : TorrentId → TorrentInfo → ℕ → Alert
  add_torrent_alert : Bool → Option (TorrentId × TorrentInfo) → ℕ → Alert
  piece_finished_alert : TorrentId → PieceIndex → Alert
  file_completed_alert : TorrentId → FileIndex → ℕ → Alert
  other_alert : ℕ → Alert

abbrev pub type_of : AlertTypes → Alert → ℕ
type_of types (metadata_received_alert id ti now) = types.metadata_received
type_of types (add_torrent_alert failed info now) = types.add_torrent
type_of types (piece_finished_alert id p) = types.piece_finished
type_of types (file_completed_alert id fi now) = types.file_completed
type_of types (other_alert n) = n

abbrev pub returns : Engine → Handled Engine
returns en = record { state = en; threw = false }

-- The handlers; each is called with an alert of its own type alone.
abbrev pub handle_metadata : Alert → Engine → Handled Engine
handle_metadata (metadata_received_alert id ti now) en = returns (on_metadata_alert id ti now en)
handle_metadata (add_torrent_alert failed info now) en = returns en
handle_metadata (piece_finished_alert id p) en = returns en
handle_metadata (file_completed_alert id fi now) en = returns en
handle_metadata (other_alert n) en = returns en

abbrev pub handle_add : Alert → Engine → Handled Engine
handle_add (metadata_received_alert id ti now) en = returns en
handle_add (add_torrent_alert failed info now) en = returns (on_add_alert failed info now en)
handle_add (piece_finished_alert id p) en = returns en
handle_add (file_completed_alert id fi now) en = returns en
handle_add (other_alert n) en = returns en

abbrev pub handle_piece : Alert → Engine → Handled Engine
handle_piece (metadata_received_alert id ti now) en = returns en
handle_piece (add_torrent_alert failed info now) en = returns en
handle_piece (piece_finished_alert id p) en = returns (on_piece_alert id p en)
handle_piece (file_completed_alert id fi now) en = returns en
handle_piece (other_alert n) en = returns en

abbrev pub handle_file : Alert → Engine → Handled Engine
handle_file (metadata_received_alert id ti now) en = returns en
handle_file (add_torrent_alert failed info now) en = returns en
handle_file (piece_finished_alert id p) en = returns en
handle_file (file_completed_alert id fi now) en = returns (on_file_alert id fi now en)
handle_file (other_alert n) en = returns en

-- The table behind each of the four registrations.
unfoldable pub wire_metadata : AlertTypes → Handlers Alert Engine
unfolding assign
wire_metadata types = on (type_of types) types.metadata_received handle_metadata []

unfoldable pub wire_add : AlertTypes → Handlers Alert Engine
unfolding wire_metadata assign
wire_add types = on (type_of types) types.add_torrent handle_add (wire_metadata types)

unfoldable pub wire_piece : AlertTypes → Handlers Alert Engine
unfolding wire_add assign
wire_piece types = on (type_of types) types.piece_finished handle_piece (wire_add types)

unfoldable pub wire_alerts : AlertTypes → Handlers Alert Engine
unfolding wire_piece assign
wire_alerts types = on (type_of types) types.file_completed handle_file (wire_piece types)

-- libtorrent gives each class of alerts its own number.
pub record AreDistinct (types : AlertTypes) : Type 0 where
  pub metadata_add : types.metadata_received ≢ types.add_torrent
  pub metadata_piece : types.metadata_received ≢ types.piece_finished
  pub metadata_file : types.metadata_received ≢ types.file_completed
  pub add_piece : types.add_torrent ≢ types.piece_finished
  pub add_file : types.add_torrent ≢ types.file_completed
  pub piece_file : types.piece_finished ≢ types.file_completed

-- The steps of the engine that a list of alerts stands for.
abbrev pub ops_of : List Alert → List Op
ops_of [] = []
ops_of (metadata_received_alert id ti now ∷ as') = metadata id ti now ∷ ops_of as'
ops_of (add_torrent_alert failed info now ∷ as') = added failed info now ∷ ops_of as'
ops_of (piece_finished_alert id p ∷ as') = piece id p ∷ ops_of as'
ops_of (file_completed_alert id fi now ∷ as') = file id fi now ∷ ops_of as'
ops_of (other_alert n ∷ as') = ops_of as'

module _ (types : AlertTypes) (distinct : AreDistinct types) where
  handle-wire_alerts :
      (a : Alert) (en : Engine)
      → handle (type_of types) (wire_alerts types) a en ≡ run_ops (ops_of (a ∷ [])) en
  unfolding wire_alerts wire_piece wire_add wire_metadata run_ops step
  handle-wire_alerts (file_completed_alert id fi now) en =
      handle-on (type_of types) types.file_completed handle_file (wire_piece types)
        (file_completed_alert id fi now) en refl
  handle-wire_alerts (piece_finished_alert id p) en =
      handle-on_other (type_of types) types.file_completed handle_file (wire_piece types)
        (piece_finished_alert id p) en (λ e. distinct.piece_file (sym e))
      ∙ handle-on (type_of types) types.piece_finished handle_piece (wire_add types)
          (piece_finished_alert id p) en refl
  handle-wire_alerts (add_torrent_alert failed info now) en =
      handle-on_other (type_of types) types.file_completed handle_file (wire_piece types)
        (add_torrent_alert failed info now) en (λ e. distinct.add_file (sym e))
      ∙ handle-on_other (type_of types) types.piece_finished handle_piece (wire_add types)
          (add_torrent_alert failed info now) en (λ e. distinct.add_piece (sym e))
      ∙ handle-on (type_of types) types.add_torrent handle_add (wire_metadata types)
          (add_torrent_alert failed info now) en refl
  handle-wire_alerts (metadata_received_alert id ti now) en =
      handle-on_other (type_of types) types.file_completed handle_file (wire_piece types)
        (metadata_received_alert id ti now) en (λ e. distinct.metadata_file (sym e))
      ∙ handle-on_other (type_of types) types.piece_finished handle_piece (wire_add types)
          (metadata_received_alert id ti now) en (λ e. distinct.metadata_piece (sym e))
      ∙ handle-on_other (type_of types) types.add_torrent handle_add (wire_metadata types)
          (metadata_received_alert id ti now) en (λ e. distinct.metadata_add (sym e))
      ∙ handle-on (type_of types) types.metadata_received handle_metadata []
          (metadata_received_alert id ti now) en refl
  handle-wire_alerts (other_alert n) en =
      handle-on_quiet (type_of types) types.file_completed handle_file (wire_piece types)
        (other_alert n) en refl
        (handle-on_quiet (type_of types) types.piece_finished handle_piece (wire_add types)
          (other_alert n) en refl
          (handle-on_quiet (type_of types) types.add_torrent handle_add (wire_metadata types)
            (other_alert n) en refl
            (handle-on_quiet (type_of types) types.metadata_received handle_metadata []
              (other_alert n) en refl (handle-nil (type_of types) (other_alert n) en))))

  ops_of-∷ :
      (a : Alert) (as' : List Alert) (en : Engine)
      → run_ops (ops_of (a ∷ as')) en ≡ run_ops (ops_of as') (run_ops (ops_of (a ∷ [])) en)
  unfolding run_ops
  ops_of-∷ (metadata_received_alert id ti now) as' en = refl
  ops_of-∷ (add_torrent_alert failed info now) as' en = refl
  ops_of-∷ (piece_finished_alert id p) as' en = refl
  ops_of-∷ (file_completed_alert id fi now) as' en = refl
  ops_of-∷ (other_alert n) as' en = refl

  dispatch-wire_alerts :
      (as' : List Alert) (en : Engine)
      → dispatch (type_of types) (wire_alerts types) as' en ≡ run_ops (ops_of as') en
  unfolding dispatch run_ops
  dispatch-wire_alerts [] en = refl
  dispatch-wire_alerts (a ∷ as') en =
      ap (dispatch (type_of types) (wire_alerts types) as') (handle-wire_alerts a en)
      ∙ dispatch-wire_alerts as' (run_ops (ops_of (a ∷ [])) en)
      ∙ sym (ops_of-∷ a as' en)

  -- The dispatcher's thread does to the engine exactly the engine's steps for the alerts that arrived
  -- before it saw that it was stopped, in their order: each alert meets the handler that is written for
  -- it, and alerts without a handler change nothing. libtorrent's four alert types have distinct numbers.
  pub run-wire_alerts :
      (rs : List (Round Alert)) (last : Round Alert) (later : List (Round Alert)) (en : Engine)
      → IsRunning rs
      → last.still_running ≡ false
      → run (type_of types) (wire_alerts types) (rs ++ (last ∷ later)) en
        ≡ run_ops (ops_of (rounds_alerts rs)) en
  run-wire_alerts rs last later en up stopped =
      run-append (type_of types) (wire_alerts types) rs last later en up stopped
      ∙ dispatch-wire_alerts (rounds_alerts rs) en
