-- ===== src/Engine/Tests/Alerts.antt =====
-- Rounds of alerts, and a run with its range callback.
use seekserve.Common.{◌≡◌, refl, true, false, none, some, List, [], ◌∷◌, ◌++◌, arith}
use seekserve.Common.Int.{pos}
use seekserve.Common.Bytes.{codes}
use seekserve.Dispatcher.{Round, run}
use seekserve.Dispatcher.Laws.{rounds_alerts}
use seekserve.Engine.Torrents.{remove_torrent}
use seekserve.Engine.Selection.{select_file}
use seekserve.Engine.Ticks.{on_range}
use seekserve.Engine.Ops.{Op, adds, metadata, selects, piece, ticks, connects, step, run_ops}
use seekserve.Engine.Wiring.{
  AlertTypes, AreDistinct, Alert, type_of, wire_alerts, metadata_received_alert,
  piece_finished_alert, other_alert, ops_of, run-wire_alerts,
}
use seekserve.Engine.Sound.{IsSound}
use seekserve.Engine.Reach.{Reach, here, after, operates, serves, Reach-IsSound}
use seekserve.Engine.State.{Engine}
use seekserve.Types.{ByteRange}
use seekserve.Common.Bytes.{bytes_eq}
use seekserve.Catalog.{on_metadata_received}
use seekserve.Api.State.{delete}
use seekserve.Api.Effects.{request}
use seekserve.Engine.Tests.Restarts.{outside, bearer_t}
use seekserve.Engine.Callback.{callback_of, on_range-after_remove}
use seekserve.Engine.Tests.{ab, info, lt, sv, en, select_ok}

abbrev types : AlertTypes
types = record { metadata_received = 1; add_torrent = 2; piece_finished = 3; file_completed = 4 }

types-AreDistinct : AreDistinct types
types-AreDistinct = record {
  metadata_add = omega arith;
  metadata_piece = omega arith;
  metadata_file = omega arith;
  add_piece = omega arith;
  add_file = omega arith;
  piece_file = omega arith;
}

abbrev first : Round Alert
first = record {
  still_running = true;
  alerts = metadata_received_alert ab info 5 ∷ other_alert 9 ∷ piece_finished_alert ab (pos 1) ∷ [];
}

abbrev last : Round Alert
last = record { still_running = false; alerts = piece_finished_alert ab (pos 2) ∷ [] }

run-wire_alerts_example :
    run (type_of types) (wire_alerts types) ((first ∷ []) ++ (last ∷ [])) en
    ≡ run_ops (ops_of (rounds_alerts (first ∷ []))) en
run-wire_alerts_example =
    run-wire_alerts types types-AreDistinct (first ∷ []) last [] en (refl, tt) refl

abbrev ops : List Op
ops =
    adds lt (codes "magnet:x") [] 1
    ∷ metadata ab info 2
    ∷ selects lt 3 ab (pos 1)
    ∷ piece ab (pos 1)
    ∷ ticks lt (λ h. 1000) 4 5 false
    ∷ connects lt outside (some (request delete ab [] bearer_t))
    ∷ []

abbrev chosen : Engine
chosen = run_ops (selects lt 3 ab (pos 1) ∷ []) en

abbrev first_ten : ByteRange
first_ten = record { start = pos 0; end = pos 9 }

abbrev served : Engine
served = elim (on_range 3 9 first_ten chosen) [ none ↦ chosen | some en' ↦ en' ]

callback_set : callback_of chosen.http_server ≡ some 3
unfolding callback_of run_ops step select_file on_metadata_received bytes_eq
callback_set = refl

request_reaches : on_range 3 9 first_ten chosen ≡ some served
unfolding on_range run_ops step select_file on_metadata_received bytes_eq
request_reaches = refl

-- A selection, a range request, then the rest of the run.
played : Reach en (run_ops ops served)
played =
    after
      (after (after here (operates (selects lt 3 ab (pos 1) ∷ [])))
        (serves 3 9 first_ten callback_set request_reaches))
      (operates ops)

Reach-IsSound_example : IsSound (run_ops ops served)
Reach-IsSound_example = Reach-IsSound tt played

on_range-after_remove_example :
    (callback_of (remove_torrent ab (select_file lt 0 ab (pos 1) en).0).0.http_server ≡ some 3)
    × (on_range 3 9
          (record { start = pos 0; end = pos 9 })
          (remove_torrent ab (select_file lt 0 ab (pos 1) en).0).0
        ≡ none)
on_range-after_remove_example =
    on_range-after_remove lt 0 ab (pos 1) en sv 9 (record { start = pos 0; end = pos 9 }) tt refl
      select_ok
