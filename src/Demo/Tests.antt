-- ===== src/Demo/Tests.antt =====
-- Options, a local file, and a run of alerts.
use seekserve.Common.{◌≡◌, refl, true, List, [], ◌∷◌, arith}
use seekserve.Common.Int.{pos}
use seekserve.Common.Bytes.{codes, bytes_eq}
use seekserve.Mapper.Example.{second}
use seekserve.Availability.{reset, unset}
use seekserve.Scheduler.{default_config, make_scheduler}
use seekserve.Dispatcher.{dispatch}
use seekserve.Engine.Wiring.{AlertTypes, Alert, type_of, piece_finished_alert, other_alert}
use seekserve.Demo.{mode_of, parse_options, serves_local, streams_torrent, usage, default_options}
use seekserve.Demo.Handlers.{Demo, SameFlags, wire_all, dispatch-SameFlags}

modes :
    (mode_of (codes "--local-file" ∷ codes "a.mkv" ∷ [])
      ≡ serves_local (codes "a.mkv") (codes "info"))
    × (mode_of (codes "--save-path" ∷ [])
        ≡ streams_torrent (record default_options { uri = codes "--save-path" }))
    × (mode_of [] ≡ usage 1)
unfolding mode_of parse_options bytes_eq
modes = (refl, refl, refl)

abbrev types : AlertTypes
types = record { metadata_received = 1; add_torrent = 2; piece_finished = 3; file_completed = 4 }

abbrev d : Demo
unfolding reset make_scheduler
d = record {
  catalog = [];
  metadata_ready = true;
  avail = reset 4 100 100 unset;
  notices = 0;
  scheduler = make_scheduler default_config second 0;
  cache = record {
    is_open = true;
    max_storage_bytes = pos 0;
    prepares = λ s. true;
    entries = [];
    torrents = [];
  };
}

abbrev alerts : List Alert
alerts = piece_finished_alert (codes "ab") (pos 1) ∷ other_alert 9 ∷ []

dispatch-SameFlags_example :
    SameFlags d (dispatch (type_of types) (wire_all types (codes "ab")) alerts d)
dispatch-SameFlags_example = dispatch-SameFlags types (codes "ab") (omega arith) alerts d
