-- ===== src/Mapper.antt =====
-- seekserve-core/src/byte_range_mapper.cpp: `ByteRangeMapper`, over libtorrent's file_storage.
-- lt::file_storage is not part of the repository: `FileStorage` has the operations that the sources
-- call, and `Documented` what libtorrent documents of them.
pub mod Span
pub mod Example
mod Tests
use seekserve.Common.{ℕ, suc, ◌+◌, ◌-◌, ◌*◌, ◌/◌, ◌%◌, ◌≤◌, ◌<◌, ◌≡◌, min, ltb, ◌==◌, if◌then◌else◌}
use seekserve.Common.Int.{ℤ, pos, sub_ℕ, next}
use seekserve.Common.Bytes.{Bytes}
use seekserve.Types.{FileIndex, PieceIndex, PieceSpan, ByteRange}

-- lt::peer_request
pub record PeerRequest : Type 0 where
  pub piece : PieceIndex
  pub start : ℕ
  pub length : ℕ

-- lt::file_storage
pub record FileStorage : Type 0 where
  pub num_files : ℕ
  pub piece_length : ℕ
  pub total_size : ℕ
  pub file_offset : FileIndex → ℕ
  pub file_size : FileIndex → ℕ
  pub file_path : FileIndex → Bytes
  pub map_file : FileIndex → ℤ → ℕ → PeerRequest
  pub piece_size : PieceIndex → ℕ

-- A file lies in the torrent; a byte of a file is mapped to the piece that holds it and to its place
-- there; a piece has the full length, unless the torrent ends before.
pub record Documented (fs : FileStorage) : Type 0 where
  pub piece_length_pos : 0 < fs.piece_length
  pub file_inside :
      (i : ℕ) → i < fs.num_files → fs.file_offset (pos i) + fs.file_size (pos i) ≤ fs.total_size
  pub map_byte :
      (i o : ℕ)
      → i < fs.num_files
      → o < fs.file_size (pos i)
      → fs.map_file (pos i) (pos o) 1 ≡ record {
        piece = pos ((fs.file_offset (pos i) + o) / fs.piece_length);
        start = (fs.file_offset (pos i) + o) % fs.piece_length;
        length = 1;
      }
  pub piece_size_at :
      (p : ℕ)
      → p * fs.piece_length < fs.total_size
      → fs.piece_size (pos p) ≡ min fs.piece_length (fs.total_size - p * fs.piece_length)

pub record Mapper : Type 0 where
  pub fs : FileStorage
  pub file_idx : FileIndex
  pub file_offset : ℕ
  pub file_size : ℕ
  pub piece_length : ℕ

-- The constructor.
unfoldable pub make_mapper : FileStorage → FileIndex → Mapper
make_mapper fs file_idx = record {
  fs = fs;
  file_idx = file_idx;
  file_offset = fs.file_offset file_idx;
  file_size = fs.file_size file_idx;
  piece_length = fs.piece_length;
}

unfoldable pub map_range : Mapper → ByteRange → PieceSpan
map_range m range =
    let first_req = m.fs.map_file m.file_idx range.start 1 in
    let last_req = m.fs.map_file m.file_idx range.end 1 in
    let last_piece_len = m.fs.piece_size last_req.piece in
    let last_length = last_req.start + last_req.length in
    record {
      first = first_req.piece;
      last = last_req.piece;
      first_offset = first_req.start;
      last_length = if ltb last_piece_len last_length then last_piece_len else last_length;
    }

unfoldable pub first_piece : Mapper → PieceIndex
first_piece m = (m.fs.map_file m.file_idx (pos 0) 1).piece

-- One past the last piece.
unfoldable pub end_piece : Mapper → PieceIndex
unfolding first_piece
end_piece m =
    if m.file_size == 0
    then first_piece m
    else next (m.fs.map_file m.file_idx (sub_ℕ m.file_size 1) 1).piece
