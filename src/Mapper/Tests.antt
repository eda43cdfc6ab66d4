-- ===== src/Mapper/Tests.antt =====
-- The second of the two example files, and the theorems at it.
use seekserve.Common.{ℕ, ◌+◌, ◌/◌, ◌<◌, ◌≡◌, ◌↔◌, refl, arith}
use seekserve.Common.Int.{pos, ◌≤ℤ◌, ◌<ℤ◌}
use seekserve.Mapper.{make_mapper, map_range, first_piece, end_piece}
use seekserve.Mapper.Example.{two_files, two_files-Documented}
use seekserve.Mapper.Span.{bytes, IsSpanOf, map_range-IsSpanOf, pieces_of_file}

runs :
    (map_range (make_mapper two_files (pos 1)) (bytes 0 99)
      ≡ record { first = pos 1; last = pos 2; first_offset = 50; last_length = 50 })
    × (first_piece (make_mapper two_files (pos 1)) ≡ pos 1)
    × (end_piece (make_mapper two_files (pos 1)) ≡ pos 4)
unfolding make_mapper map_range first_piece end_piece
runs = (refl, refl, refl)

map_range-IsSpanOf_example :
    IsSpanOf 100 150 249 (map_range (make_mapper two_files (pos 1)) (bytes 0 99))
map_range-IsSpanOf_example =
    map_range-IsSpanOf two_files two_files-Documented 1 (omega arith) 0 99 (omega arith)
      (omega arith)

pieces_of_file_example :
    ((first_piece (make_mapper two_files (pos 1)) ≤ℤ pos 3)
      × (pos 3 <ℤ end_piece (make_mapper two_files (pos 1))))
    ↔ ((o : ℕ) × (o < 250) × ((150 + o) / 100 ≡ 3))
pieces_of_file_example =
    pieces_of_file two_files two_files-Documented 1 (omega arith) 3 (omega arith)
