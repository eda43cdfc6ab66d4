-- ===== src/Scheduler.antt =====
-- seekserve-core/src/streaming_scheduler.cpp: `StreamingScheduler`.
-- A call returns the new state and the calls that it makes on the torrent handle, in order. The
-- mutex makes each call atomic. The availability index and the mapper are shared objects, passed to
-- each call as they are at that time; so is the steady clock, in nanoseconds. Configured sizes are
-- not negative, and the rate limit, a `double`, is a whole number of bytes per second.
pub mod Deadlines
pub mod Budget
pub mod Window
pub mod Modes
mod Tests
use seekserve.Common.{
  ℕ, zero, suc, ◌+◌, ◌-◌, ◌*◌, ◌/◌, max, Bool, true, false, not, ◌&&◌, ◌||◌, List, [], ◌∷◌, ◌++◌,
  map, ltb, leb, ◌==◌, if◌then◌else◌,
}
use seekserve.Common.Int.{ℤ, pos, ◌+ℤ◌, ◌-ℤ◌, abs, ltb_ℤ, leb_ℤ, next}
use seekserve.Types.{
  PieceIndex, ByteRange, StreamMode, streaming_first, download_assist, download_first,
}
use seekserve.Availability.{PieceAvailability, is_complete, contiguous_bytes_from}
use seekserve.Mapper.{Mapper, map_range, first_piece, end_piece}

-- SchedulerConfig of seekserve-core/include/seekserve/config.hpp
pub record SchedulerConfig : Type 0 where
  pub hot_window_pieces : ℕ
  pub lookahead_pieces : ℕ
  pub seek_boost_pieces : ℕ
  pub deadline_budget : ℕ
  pub seek_boost_duration_ms : ℕ
  pub min_contiguous_bytes : ℕ
  pub stall_count_threshold : ℕ
  pub min_sustained_rate : ℕ

abbrev pub default_config : SchedulerConfig
default_config = record {
  hot_window_pieces = 5;
  lookahead_pieces = 20;
  seek_boost_pieces = 10;
  deadline_budget = 30;
  seek_boost_duration_ms = 3000;
  min_contiguous_bytes = 2097152;
  stall_count_threshold = 3;
  min_sustained_rate = 500000;
}

pub record Scheduler : Type 0 where
  pub config : SchedulerConfig
  pub mode : StreamMode
  pub playhead_piece : PieceIndex
  pub active_deadlines : ℕ
  pub seek_boosting : Bool
  pub seek_boost_start : ℕ
  pub stall_count : ℕ

pub record Deadline : Type 0 where
  pub piece : PieceIndex
  pub ms : ℕ

-- The calls on lt::torrent_handle.
pub data HandleCall : Type 0 where
  clear_piece_deadlines : HandleCall
  set_piece_deadline : Deadline → HandleCall

unfoldable pub make_scheduler : SchedulerConfig → Mapper → ℕ → Scheduler
make_scheduler config mapper now = record {
  config = config;
  mode = streaming_first;
  playhead_piece = first_piece mapper;
  active_deadlines = 0;
  seek_boosting = false;
  seek_boost_start = now;
  stall_count = 0;
}

-- The constants of one of the two loops of `set_deadlines`.
pub record Loop : Type 0 where
  pub file_first : PieceIndex
  pub file_end : PieceIndex
  pub budget : ℕ
  pub base_ms : ℕ
  pub step_ms : ℕ

-- The deadlines set so far, and `deadline_count`.
pub record Placed : Type 0 where
  pub deadlines : List Deadline
  pub count : ℕ

abbrev pub skips : PieceAvailability → Loop → PieceIndex → Bool
skips avail l p = (ltb_ℤ p l.file_first || leb_ℤ l.file_end p) || is_complete avail p

-- The body of the loop at piece `p`, the `i`-th; the two `continue`s leave everything as it is.
unfoldable pub visit : PieceAvailability → Loop → ℕ → PieceIndex → Placed → Placed
visit avail l i p s = if skips avail l p then s else record {
  deadlines = s.deadlines ++ (record { piece = p; ms = l.base_ms + i * l.step_ms } ∷ []);
  count = s.count + 1;
}

-- for (i = 0; i < size && deadline_count < budget; ++i) with `k` rounds left.
unfoldable pub place : PieceAvailability → Loop → ℕ → ℕ → PieceIndex → Placed → Placed
place avail l zero i p s = s
place avail l (suc k) i p s =
    let rest = place avail l k (suc i) (next p) (visit avail l i p s) in
    if ltb s.count l.budget then rest else s

pub record Sizes : Type 0 where
  pub hot_size : ℕ
  pub lookahead_size : ℕ

-- The switch over the mode, with `hot_size` as the seek boost left it.
unfoldable pub adjust : StreamMode → ℕ → ℕ → Sizes
adjust streaming_first hot lookahead = record { hot_size = hot; lookahead_size = lookahead }
adjust download_assist hot lookahead = record { hot_size = hot; lookahead_size = lookahead * 2 }
adjust download_first hot lookahead = record {
  hot_size = max 3 (hot / 2);
  lookahead_size = max 3 (hot / 2);
}

unfoldable pub sizes : Scheduler → Sizes
unfolding adjust
sizes s =
    adjust s.mode
      (if s.seek_boosting
        then s.config.hot_window_pieces + s.config.seek_boost_pieces
        else s.config.hot_window_pieces)
      s.config.lookahead_pieces

abbrev pub hot_loop : Scheduler → Mapper → Loop
hot_loop s mapper = record {
  file_first = first_piece mapper;
  file_end = end_piece mapper;
  budget = s.config.deadline_budget;
  base_ms = 100;
  step_ms = 50;
}

abbrev pub lookahead_loop : Scheduler → Mapper → Loop
lookahead_loop s mapper = record (hot_loop s mapper) { base_ms = 2000; step_ms = 200 }

-- What the two loops of `set_deadlines` leave.
unfoldable pub place_all : Scheduler → PieceAvailability → Mapper → Placed
place_all s avail mapper =
    let hot = (sizes s).hot_size in
    let after_hot =
      place avail (hot_loop s mapper) hot 0 s.playhead_piece
        (record { deadlines = []; count = 0 }) in
    place avail (lookahead_loop s mapper) (sizes s).lookahead_size 0 (s.playhead_piece +ℤ pos hot)
      after_hot

unfoldable pub set_deadlines : Scheduler → PieceAvailability → Mapper → Scheduler × List HandleCall
set_deadlines s avail mapper =
    let placed = place_all s avail mapper in
    (record s { active_deadlines = placed.count }, map set_piece_deadline placed.deadlines)

-- Whether the playhead jumped by more than the hot window.
unfoldable pub is_seek : Scheduler → PieceIndex → Bool
is_seek s new_playhead = ltb s.config.hot_window_pieces (abs (new_playhead -ℤ s.playhead_piece))

unfoldable pub on_range_request :
    Scheduler → PieceAvailability → Mapper → ℕ → ByteRange → Scheduler × List HandleCall
on_range_request s avail mapper now range =
    let new_playhead = (map_range mapper range).first in
    let jumped = is_seek s new_playhead in
    let sought = if jumped then record s { seek_boosting = true; seek_boost_start = now } else s in
    let (s', calls) =
      set_deadlines (record sought { playhead_piece = new_playhead }) avail mapper in
    (s', if jumped then clear_piece_deadlines ∷ calls else calls)

unfoldable pub on_piece_complete : Scheduler → PieceIndex → Scheduler
on_piece_complete s piece =
    if leb_ℤ s.playhead_piece piece && ltb 0 s.active_deadlines
    then record s { active_deadlines = s.active_deadlines - 1 }
    else s

-- The switch of `evaluate_mode_switch`: the mode behind it, from the mode before.
unfoldable pub switch_mode : SchedulerConfig → StreamMode → ℕ → ℕ → ℤ → StreamMode
switch_mode c streaming_first stalls rate contig =
    if leb c.stall_count_threshold stalls then download_assist else streaming_first
switch_mode c download_assist stalls rate contig =
    let slowed =
      if ltb rate c.min_sustained_rate && leb (c.stall_count_threshold * 2) stalls
      then download_first
      else download_assist in
    if leb_ℤ (pos c.min_contiguous_bytes) contig && (stalls == 0) then streaming_first else slowed
switch_mode c download_first stalls rate contig =
    if leb_ℤ (pos c.min_contiguous_bytes) contig then download_assist else download_first

abbrev pub same_mode : StreamMode → StreamMode → Bool
same_mode streaming_first streaming_first = true
same_mode download_assist download_assist = true
same_mode download_first download_first = true
same_mode _ _ = false

unfoldable pub evaluate_mode_switch : Scheduler → PieceAvailability → Mapper → ℕ → Scheduler
unfolding switch_mode
evaluate_mode_switch s avail mapper rate =
    let span = map_range mapper (record { start = pos 0; end = pos 0 }) in
    let contig = contiguous_bytes_from avail s.playhead_piece span.first_offset in
    let mode' = switch_mode s.config s.mode s.stall_count rate contig in
    record s { mode = mode'; stall_count = if same_mode mode' s.mode then s.stall_count else 0 }

-- The seek boost ends when its time is over.
unfoldable pub expire_boost : Scheduler → ℕ → Scheduler
expire_boost s now =
    if s.seek_boosting && leb s.config.seek_boost_duration_ms ((now - s.seek_boost_start) / 1000000)
    then record s { seek_boosting = false }
    else s

unfoldable pub count_stall : Scheduler → PieceAvailability → Scheduler
count_stall s avail = record s {
  stall_count = if not (is_complete avail s.playhead_piece) then s.stall_count + 1 else 0;
}

unfoldable pub tick : Scheduler → PieceAvailability → Mapper → ℕ → ℕ → Scheduler × List HandleCall
tick s avail mapper now rate =
    set_deadlines (evaluate_mode_switch (count_stall (expire_boost s now) avail) avail mapper rate)
      avail mapper
