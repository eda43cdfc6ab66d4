-- ===== src/ByteSource/Tests.antt =====
-- Reads of the second example file: 250 bytes in the pieces 1 to 3, of which piece 2 is complete.
use seekserve.Common.{◌≡◌, refl, true, false, none, some, [], ◌∷◌, ◌++◌, replicate}
use seekserve.Common.Int.{pos}
use seekserve.Common.Bytes.{Bytes, codes}
use seekserve.Types.{ok, err, cancelled, timeout_waiting_for_piece}
use seekserve.Availability.{is_span_complete, mark_complete}
use seekserve.Mapper.{make_mapper, map_range}
use seekserve.Mapper.Example.{two_files}
use seekserve.ByteSource.{
  Disk, Shared, marks, cancels, wakes, times_out, settle, happen, ByteSource, read, read_range,
  read_from_disk, wait_for, sleep, ready, resume, finish_read,
}
use seekserve.ByteSource.Waits.{IsSlice}
use seekserve.ByteSource.Read.{read_ok, read_arrives, read_cancelled}

abbrev path : Bytes
path = codes "b.mkv"

abbrev source : ByteSource
source = record { file_path = path; mapper = make_mapper two_files (pos 1) }

abbrev disk : Disk
disk = record { open_file = λ p. some (replicate 250 7); seeks = λ p o. true }

abbrev one_piece : Shared
one_piece = record {
  avail = record {
    num_pieces = 4;
    piece_length = 100;
    last_piece_length = 100;
    completed = false ∷ false ∷ true ∷ false ∷ [];
    completed_count = 1;
  };
  is_cancelled = false;
}

-- Piece 1 arrives while the read waits for it.
arrives :
    read source disk 48 4 one_piece (wakes ∷ marks (pos 1) ∷ wakes ∷ []) []
    ≡ some (ok (7 ∷ 7 ∷ 7 ∷ 7 ∷ []))
unfolding make_mapper map_range read wait_for sleep ready resume finish_read read_from_disk settle
    happen is_span_complete mark_complete
arrives = refl

gives_up :
    (read source disk 48 4 one_piece (wakes ∷ times_out ∷ []) []
      ≡ some (err timeout_waiting_for_piece))
    × (read source disk 48 4 one_piece (cancels ∷ wakes ∷ []) [] ≡ some (err cancelled))
    × (read source disk 48 4 one_piece (wakes ∷ []) [] ≡ none)
unfolding make_mapper map_range read wait_for sleep ready resume finish_read read_from_disk settle
    happen is_span_complete mark_complete
gives_up = (refl, refl, refl)

read_ok_example :
    (is_span_complete
        (settle one_piece ((wakes ∷ marks (pos 1) ∷ wakes ∷ []) ++ [])).avail
        (map_range source.mapper (read_range 48 4))
      ≡ true)
    × IsSlice disk path 48 4 (7 ∷ 7 ∷ 7 ∷ 7 ∷ [])
read_ok_example = read_ok source disk 48 4 one_piece (wakes ∷ marks (pos 1) ∷ wakes ∷ []) [] arrives

-- Piece 1 comes, and the thread is woken.
read_arrives_example :
    read source disk 48 4 one_piece ((marks (pos 1) ∷ []) ++ (wakes ∷ [])) []
    ≡ some (read_from_disk disk path 48 4)
unfolding make_mapper map_range settle happen is_span_complete mark_complete
read_arrives_example =
    read_arrives source disk 48 4 one_piece (marks (pos 1) ∷ []) [] [] tt refl refl

read_cancelled_example :
    read source disk 48 4 one_piece ((wakes ∷ cancels ∷ []) ++ (wakes ∷ [])) []
    ≡ some (err cancelled)
unfolding make_mapper map_range settle happen is_span_complete mark_complete
read_cancelled_example =
    read_cancelled source disk 48 4 one_piece (wakes ∷ cancels ∷ []) [] [] tt refl refl
