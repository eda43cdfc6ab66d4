-- ===== src/ByteSource.antt =====
-- seekserve-core/src/byte_source.cpp: `ByteSource`.
-- Other threads mark pieces and cancel while `read` waits, so a call is given the schedule of what
-- happens meanwhile. Offsets and lengths are those that the server passes, and not negative. The
-- file system is a parameter.
pub mod Waits
pub mod Read
mod Tests
use seekserve.Common.{
  ℕ, suc, ◌+◌, Bool, true, false, not, ◌||◌, Option, none, some, List, [], ◌∷◌, ◌++◌, if◌then◌else◌,
  take, drop,
}
use seekserve.Common.Int.{ℤ, pos, sub_ℕ}
use seekserve.Common.Bytes.{Bytes}
use seekserve.Types.{
  PieceIndex, PieceSpan, ByteRange, Result, ok, err, io_error, cancelled, timeout_waiting_for_piece,
}
use seekserve.Availability.{PieceAvailability, is_span_complete, mark_complete}
use seekserve.Mapper.{Mapper, map_range}

-- std::ifstream: `open` is the content of a file that can be opened, `seeks` whether seekg succeeds.
pub record Disk : Type 0 where
  pub open_file : Bytes → Option Bytes
  pub seeks : Bytes → ℕ → Bool

-- What the threads share: the availability index and the `cancelled_` flag.
pub record Shared : Type 0 where
  pub avail : PieceAvailability
  pub is_cancelled : Bool

-- Another thread marks a piece or cancels; or the waiting thread is woken (by a notification or by
-- itself), or its time is up.
pub data Wake : Type 0 where
  marks : PieceIndex → Wake
  cancels : Wake
  wakes : Wake
  times_out : Wake

-- `cancel` sets the flag; the notification is a `wakes`.
unfoldable pub cancel : Shared → Shared
cancel sh = record sh { is_cancelled = true }

-- What an event does to the shared state.
unfoldable pub happen : Shared → Wake → Shared
unfolding cancel
happen sh (marks p) = record sh { avail = mark_complete sh.avail p }
happen sh cancels = cancel sh
happen sh wakes = sh
happen sh times_out = sh

unfoldable pub settle : Shared → List Wake → Shared
settle sh [] = sh
settle sh (w ∷ ws) = settle (happen sh w) ws

-- The predicate of the wait.
unfoldable pub ready : PieceSpan → Shared → Bool
ready span sh = sh.is_cancelled || is_span_complete sh.avail span

-- Blocked in the condition variable; `none` is a thread that is still blocked when the schedule ends.
unfoldable pub sleep : PieceSpan → Shared → List Wake → Option (Shared × Bool)
sleep span sh [] = none
sleep span sh (marks p ∷ ws) = sleep span (happen sh (marks p)) ws
sleep span sh (cancels ∷ ws) = sleep span (happen sh cancels) ws
sleep span sh (wakes ∷ ws) =
    let again = sleep span sh ws in if ready span sh then some (sh, true) else again
sleep span sh (times_out ∷ ws) = some (sh, ready span sh)

-- cv_.wait_for(lock, timeout_, predicate)
unfoldable pub wait_for : PieceSpan → Shared → List Wake → Option (Shared × Bool)
wait_for span sh ws = if ready span sh then some (sh, true) else sleep span sh ws

unfoldable pub read_from_disk : Disk → Bytes → ℕ → ℕ → Result Bytes
read_from_disk disk file_path offset len = elim (disk.open_file file_path) [
  | none ↦ err io_error
  | some content ↦
      if not (disk.seeks file_path offset)
      then err io_error
      else ok (take len (drop offset content))
]

abbrev pub read_range : ℕ → ℕ → ByteRange
read_range offset len = record { start = pos offset; end = sub_ℕ (offset + len) 1 }

-- Behind the wait, where the flag is loaded again.
unfoldable pub finish_read : Disk → Bytes → ℕ → ℕ → Shared → Bool → Result Bytes
finish_read disk file_path offset len sh in_time =
    if sh.is_cancelled
    then err cancelled
    else if not in_time
    then err timeout_waiting_for_piece
    else read_from_disk disk file_path offset len

pub record ByteSource : Type 0 where
  pub file_path : Bytes
  pub mapper : Mapper

-- What `read` makes of the end of the wait.
unfoldable pub resume :
    Disk → Bytes → ℕ → ℕ → List Wake → Option (Shared × Bool) → Option (Result Bytes)
resume disk file_path offset len later none = none
resume disk file_path offset len later (some (sh, in_time)) =
    some (finish_read disk file_path offset len (settle sh later) in_time)

-- `during` happens while the thread waits, `later` between the wait and the second look at the flag.
unfoldable pub read :
    ByteSource → Disk → ℕ → ℕ → Shared → List Wake → List Wake → Option (Result Bytes)
read source disk offset len sh during later =
    if sh.is_cancelled
    then some (err cancelled)
    else resume disk source.file_path offset len later
        (wait_for (map_range source.mapper (read_range offset len)) sh during)

unfoldable pub is_available : ByteSource → PieceAvailability → ℕ → ℕ → Bool
is_available source avail offset len =
    is_span_complete avail (map_range source.mapper (read_range offset len))

unfoldable pub file_size : ByteSource → ℕ
file_size source = source.mapper.file_size
