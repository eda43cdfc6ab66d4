-- ===== src/Mapper/Example.antt =====
-- Two files of 150 and 250 bytes in pieces of 100 bytes: a storage with the documented behaviour.
use seekserve.Common.{ℕ, zero, suc, ◌+◌, ◌-◌, ◌*◌, ◌/◌, ◌%◌, ◌≤◌, ◌<◌, refl, min, arith}
use seekserve.Common.Int.{pos, pos_part}
use seekserve.Common.Bytes.{codes}
use seekserve.Types.{FileIndex}
use seekserve.Mapper.{FileStorage, Documented, Mapper, make_mapper}

abbrev offset_of : FileIndex → ℕ
offset_of (pos zero) = 0
offset_of _ = 150

abbrev size_of : FileIndex → ℕ
size_of (pos zero) = 150
size_of (pos (suc zero)) = 250
size_of _ = 0

abbrev pub two_files : FileStorage
two_files = record {
  num_files = 2;
  piece_length = 100;
  total_size = 400;
  file_offset = offset_of;
  file_size = size_of;
  file_path = λ i. codes "a.mkv";
  map_file = λ i o n. record {
    piece = pos ((offset_of i + pos_part o) / 100);
    start = (offset_of i + pos_part o) % 100;
    length = n;
  };
  piece_size = λ p. min 100 (400 - pos_part p * 100);
}

files_inside : (i : ℕ) → i < 2 → offset_of (pos i) + size_of (pos i) ≤ 400
files_inside zero h = omega arith
files_inside (suc zero) h = omega arith
files_inside (suc (suc i)) h = absurd (omega arith)

pub two_files-Documented : Documented two_files
two_files-Documented = record {
  piece_length_pos = omega arith;
  file_inside = files_inside;
  map_byte = λ i o h k. refl;
  piece_size_at = λ p h. refl;
}

-- The second file.
abbrev pub second : Mapper
unfolding make_mapper
second = make_mapper two_files (pos 1)
