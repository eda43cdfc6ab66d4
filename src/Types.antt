-- ===== src/Types.antt =====
-- seekserve-core/include/seekserve/types.hpp and error.hpp: the values that the modules exchange.
-- std::int32_t and std::int64_t are ℤ where a sign can occur, and ℕ where it cannot.
use seekserve.Common.{ℕ, Bool, true, false}
use seekserve.Common.Int.{ℤ}
use seekserve.Common.Bytes.{Bytes, codes}

abbrev pub TorrentId : Type 0
TorrentId = Bytes

abbrev pub FileIndex : Type 0
FileIndex = ℤ

abbrev pub PieceIndex : Type 0
PieceIndex = ℤ

pub record PieceSpan : Type 0 where
  pub first : PieceIndex
  pub last : PieceIndex
  pub first_offset : ℕ
  pub last_length : ℕ

-- Both ends belong to the range.
pub record ByteRange : Type 0 where
  pub start : ℤ
  pub end : ℤ

pub record FileInfo : Type 0 where
  pub index : ℕ
  pub path : Bytes
  pub size : ℕ
  pub offset_in_torrent : ℕ
  pub first_piece : PieceIndex
  pub end_piece : PieceIndex

pub data StreamMode : Type 0 where
  streaming_first download_assist download_first : StreamMode

pub data Errc : Type 0 where
  success torrent_not_found file_not_found metadata_not_ready piece_not_available : Errc
  timeout_waiting_for_piece range_not_satisfiable server_already_running : Errc
  session_not_started invalid_argument io_error cancelled : Errc

-- Result<T>: a value, or the error code that `make_error_code` builds.
pub data Result {ℓ} (A : Type ℓ) : Type ℓ where
  ok : A → Result A
  err : Errc → Result A

-- Result<T>::ok
abbrev pub is_ok {ℓ} : {A : Type ℓ} → Result A → Bool
is_ok (ok a) = true
is_ok (err e) = false

-- error.cpp: the texts of SeekServeCategory
unfoldable pub message : Errc → Bytes
message success = codes "success"
message torrent_not_found = codes "torrent not found"
message file_not_found = codes "file not found"
message metadata_not_ready = codes "metadata not ready"
message piece_not_available = codes "piece not available"
message timeout_waiting_for_piece = codes "timeout waiting for piece"
message range_not_satisfiable = codes "range not satisfiable"
message server_already_running = codes "server already running"
message session_not_started = codes "session not started"
message invalid_argument = codes "invalid argument"
message io_error = codes "I/O error"
message cancelled = codes "cancelled"
