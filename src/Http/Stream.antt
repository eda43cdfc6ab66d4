-- ===== src/Http/Stream.antt =====
-- http_range_server.cpp: the loop of `stream_body`, which writes a body in chunks. The source's reads
-- and the socket's writes are parameters; they may answer differently at each step.
pub mod Body
mod Tests
use seekserve.Common.{
  Option, none, some, take, ℕ, zero, suc, ◌+◌, ◌-◌, Bool, true, false, not, [], ◌++◌, ltb,
  if◌then◌else◌, length, min, List,
}
use seekserve.Common.Bytes.{Bytes}
use seekserve.Types.{Errc, Result, ok, err}

abbrev pub chunk_size : ℕ
chunk_size = 65536

-- How the loop ends; `out_of_fuel` is a loop that still runs.
pub data Outcome : Type 0 where
  left_loop : Outcome
  read_failed : Errc → Outcome
  write_failed : Outcome
  out_of_fuel : Outcome

-- What went over the socket, and how it ended.
pub record Streamed : Type 0 where
  pub sent : Bytes
  pub outcome : Outcome

-- src->read(offset, chunk_len) and net::write at the k-th step
abbrev pub Reader : Type 0
Reader = ℕ → ℕ → ℕ → Result Bytes

-- `none` is a write that succeeds, `some n` one that fails behind n bytes.
abbrev pub Writes : Type 0
Writes = ℕ → Option ℕ

abbrev pub sends : Bytes → Streamed → Streamed
sends chunk rest = record { sent = chunk ++ rest.sent; outcome = rest.outcome }

-- `rest` is the loop behind this step, if it goes on.
unfoldable pub after_read : Result Bytes → Option ℕ → ℕ → Streamed → Streamed
after_read (err e) write_ec chunk_len rest = record { sent = []; outcome = read_failed e }
after_read (ok chunk) (some n) chunk_len rest = record {
  sent = take n chunk;
  outcome = write_failed;
}
after_read (ok chunk) none chunk_len rest =
    if ltb (length chunk) chunk_len
    then record { sent = chunk; outcome = left_loop }
    else sends chunk rest

abbrev pub bytes_read : Result Bytes → ℕ
bytes_read (err e) = 0
bytes_read (ok chunk) = length chunk

unfoldable pub body_loop : Reader → Writes → ℕ → ℕ → ℕ → ℕ → Streamed
unfolding after_read
body_loop rd wr zero k offset remaining = record {
  sent = [];
  outcome = if ltb 0 remaining then out_of_fuel else left_loop;
}
body_loop rd wr (suc fuel) k offset remaining =
    let chunk_len = min chunk_size remaining in
    let read_result = rd k offset chunk_len in
    let n = bytes_read read_result in
    let rest = body_loop rd wr fuel (suc k) (offset + n) (remaining - n) in
    if ltb 0 remaining
    then after_read read_result (wr k) chunk_len rest
    else record { sent = []; outcome = left_loop }

-- A step that goes on takes a byte at least, so `length` steps are enough.
unfoldable pub stream_body : Reader → Writes → ℕ → ℕ → Streamed
unfolding body_loop
stream_body rd wr start_offset len = body_loop rd wr len 0 start_offset len
