-- ===== src/Scheduler/Tests.antt =====
-- The scheduler on the second example file: four pieces of 100 bytes, of which one is complete.
use seekserve.Common.{◌+◌, ◌≤◌, ◌≡◌, refl, true, false, List, [], ◌∷◌, All, leb, if◌then◌else◌}
use seekserve.Common.Int.{pos}
use seekserve.Types.{download_first, download_assist, streaming_first}
use seekserve.Availability.{PieceAvailability, is_complete, contiguous_from}
use seekserve.Availability.Runs.{run_bytes}
use seekserve.Mapper.{Mapper, map_range, first_piece, end_piece}
use seekserve.Mapper.Example.{two_files}
use seekserve.Scheduler.{
  Scheduler, default_config, make_scheduler, set_piece_deadline, set_deadlines, expire_boost,
  count_stall, tick, sizes, place, place_all, visit, evaluate_mode_switch,
}
use seekserve.Scheduler.Window.{deadlines_in, IsNeeded, set_deadlines-IsNeeded}
use seekserve.Scheduler.Modes.{
  Event, request, piece_done, ticks, run, least_ticks, least_ticks-run, evaluate_download_first,
}

abbrev one_of_four : PieceAvailability
one_of_four = record {
  num_pieces = 4;
  piece_length = 100;
  last_piece_length = 100;
  completed = false ∷ false ∷ true ∷ false ∷ [];
  completed_count = 1;
}

abbrev mapper : Mapper
mapper = record {
  fs = two_files;
  file_idx = pos 1;
  file_offset = 150;
  file_size = 250;
  piece_length = 100;
}

abbrev fresh : Scheduler
fresh = record {
  config = default_config;
  mode = streaming_first;
  playhead_piece = pos 1;
  active_deadlines = 0;
  seek_boosting = false;
  seek_boost_start = 0;
  stall_count = 0;
}

starts : make_scheduler default_config mapper 0 ≡ fresh
unfolding make_scheduler first_piece
starts = refl

sets_two :
    (set_deadlines fresh one_of_four mapper).1
    ≡ set_piece_deadline (record { piece = pos 1; ms = 100 })
      ∷ set_piece_deadline (record { piece = pos 3; ms = 200 })
      ∷ []
unfolding set_deadlines place_all place visit sizes first_piece end_piece is_complete
sets_two = refl

abbrev stalled : Scheduler
stalled = record fresh { stall_count = 2 }

switches : (tick stalled one_of_four mapper 0 0).0.mode ≡ download_assist
unfolding tick set_deadlines place_all place visit sizes first_piece end_piece is_complete
    expire_boost count_stall evaluate_mode_switch
switches = refl

abbrev behind : Scheduler
behind = record fresh { playhead_piece = pos 2; mode = download_first }

set_deadlines-IsNeeded_example :
    All
      (IsNeeded one_of_four (first_piece mapper) (end_piece mapper))
      (deadlines_in (set_deadlines fresh one_of_four mapper).1)
set_deadlines-IsNeeded_example = set_deadlines-IsNeeded one_of_four mapper fresh

abbrev calls : List Event
calls =
    ticks one_of_four 5 0
    ∷ request one_of_four 6 (record { start = pos 0; end = pos 9 })
    ∷ piece_done (pos 1)
    ∷ []

least_ticks-run_example :
    least_ticks default_config (run mapper (make_scheduler default_config mapper 0) calls).mode ≤ 1
least_ticks-run_example = least_ticks-run default_config mapper 0 calls

evaluate_download_first_example : (evaluate_mode_switch behind one_of_four mapper 0).mode ≡ (
    if leb
      (2097152 + (map_range mapper (record { start = pos 0; end = pos 0 })).first_offset)
      (run_bytes one_of_four 2 (contiguous_from one_of_four (pos 2)))
    then download_assist
    else download_first)
unfolding is_complete
evaluate_download_first_example =
    evaluate_download_first behind one_of_four mapper 0 2 refl refl refl
