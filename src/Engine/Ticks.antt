-- ===== src/Engine/Ticks.antt =====
-- engine.cpp: `on_tick`, and the range callback that `select_file` sets on the range server.
use seekserve.Common.{ℕ, zero, suc, ◌==◌, Bool, Option, none, some, [], ◌∷◌, if◌then◌else◌, ltb}
use seekserve.Common.Int.{pos, leb_ℤ, next, rounds}
use seekserve.Common.Bytes.{Bytes}
use seekserve.Common.Assoc.{Assoc, insert}
use seekserve.Types.{TorrentId, PieceIndex, ByteRange}
use seekserve.Availability.{PieceAvailability, Ratio, is_complete}
use seekserve.Mapper.{first_piece, end_piece}
use seekserve.Scheduler.{tick, on_range_request}
use seekserve.Cache.{Cache, on_progress_update}
use seekserve.Session.{Libtorrent}
use seekserve.Engine.State.{Engine, TorrentState, valid_handle}

-- The complete pieces among the `k` from piece `p` on.
unfoldable pub count_complete : PieceAvailability → ℕ → PieceIndex → ℕ
unfolding is_complete
count_complete avail zero p = 0
count_complete avail (suc k) p =
    let rest = count_complete avail k (next p) in if is_complete avail p then suc rest else rest

unfoldable pub file_progress : TorrentState → Ratio
unfolding count_complete first_piece end_piece
file_progress state =
    let total = rounds (first_piece state.mapper) (end_piece state.mapper) in
    if ltb 0 total
    then record {
      part = count_complete state.avail total (first_piece state.mapper);
      whole = total;
    }
    else record { part = 0; whole = 1 }

-- The scheduler's tick, with the download rate that the handle reports.
unfoldable pub tick_state : ℕ → ℕ → TorrentState → TorrentState
unfolding tick
tick_state now rate state = record state {
  scheduler = (tick state.scheduler state.avail state.mapper now rate).0;
}

unfoldable pub note_progress : ℕ → TorrentId → TorrentState → Cache → Cache
unfolding on_progress_update file_progress
note_progress now id state cache =
    if leb_ℤ (pos 0) state.selected_file
    then on_progress_update id state.selected_file (file_progress state) now cache
    else cache

-- A state without a valid handle is passed over.
abbrev pub tick_by : (ℕ → ℕ) → ℕ → Option ℕ → TorrentState → TorrentState
tick_by rate now none state = state
tick_by rate now (some handle) state = tick_state now (rate handle) state

abbrev pub note_by : ℕ → TorrentId → Option ℕ → TorrentState → Cache → Cache
note_by clock id none state cache = cache
note_by clock id (some handle) state cache = note_progress clock id state cache

-- The loop over the states: those behind it, and the cache. `now` is the scheduler's clock and `clock`
-- the cache's.
unfoldable pub tick_states :
    Libtorrent → (ℕ → ℕ) → ℕ → ℕ → Engine → Assoc TorrentState → Cache → Assoc TorrentState × Cache
unfolding tick_state note_progress
tick_states lt rate now clock en [] cache = ([], cache)
tick_states lt rate now clock en ((id, state) ∷ states) cache =
    let handle = valid_handle lt id en in
    let ticked = tick_by rate now handle state in
    let rest = tick_states lt rate now clock en states (note_by clock id handle ticked cache) in
    ((id, ticked) ∷ rest.0, rest.1)

-- `failed` is the timer's error code.
unfoldable pub on_tick : Libtorrent → (ℕ → ℕ) → ℕ → ℕ → Bool → Engine → Engine
unfolding tick_states
on_tick lt rate now clock failed en =
    let ticked = tick_states lt rate now clock en en.states en.cache in
    if failed then en else record en { states = ticked.0; cache = ticked.1 }

-- The state that owns the scheduler at a pointer.
unfoldable pub owner : ℕ → Assoc TorrentState → Option (Bytes × TorrentState)
owner pointer [] = none
owner pointer ((id, state) ∷ states) =
    if state.pointer == pointer then some (id, state) else owner pointer states

-- `on_range_request` on a state's scheduler
abbrev pub range_on : ℕ → ByteRange → TorrentState → TorrentState
range_on now range state = record state {
  scheduler = (on_range_request state.scheduler state.avail state.mapper now range).0;
}

abbrev pub on_owner : ℕ → ByteRange → Engine → Option (Bytes × TorrentState) → Option Engine
on_owner now range en none = none
on_owner now range en (some (id, state)) =
    some (record en { states = insert id (range_on now range state) en.states })

-- The range callback: the request goes to the scheduler that its raw pointer names. `none` is a pointer
-- whose scheduler was destroyed.
unfoldable pub on_range : ℕ → ℕ → ByteRange → Engine → Option Engine
unfolding owner on_range_request insert
on_range pointer now range en = on_owner now range en (owner pointer en.states)
