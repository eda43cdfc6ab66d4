-- ===== src/Mapper/Span.antt =====
-- What `map_range` returns for a range inside the file.
use native.Mathlib.Nat.{
  le-div_iff_mul-le, div-mul-le_self, div-add-mod', mod-lt, le_trans, mul-div_cancel,
}
use seekserve.Common.{
  ℕ, suc, ◌+◌, ◌-◌, ◌*◌, ◌/◌, ◌%◌, ◌≤◌, ◌<◌, ◌≡◌, ◌↔◌, refl, ap, inl, inr, true, false, arith, leb,
  leb→le, Bool-cases,
}
use seekserve.Common.Int.{pos, ◌≤ℤ◌, ◌<ℤ◌}
use seekserve.Types.{PieceSpan, ByteRange}
use seekserve.Mapper.{FileStorage, Documented, make_mapper, map_range, first_piece, end_piece}

abbrev pub bytes : ℕ → ℕ → ByteRange
bytes a b = record { start = pos a; end = pos b }

-- The span is the run of torrent bytes from `lo` to `hi`, both included: piece and offset spell the
-- first byte, piece and length the end, and both places lie inside their pieces.
pub record IsSpanOf (len lo hi : ℕ) (s : PieceSpan) : Type 0 where
  pub first_index : ℕ
  pub last_index : ℕ
  pub first_is : s.first ≡ pos first_index
  pub last_is : s.last ≡ pos last_index
  pub begins : first_index * len + s.first_offset ≡ lo
  pub ends : last_index * len + s.last_length ≡ hi + 1
  pub ordered : first_index ≤ last_index
  pub offset_inside : s.first_offset < len
  pub length_pos : 0 < s.last_length
  pub length_inside : s.last_length ≤ len

pub div_mono : (k x y : ℕ) → 0 < k → x ≤ y → x / k ≤ y / k
div_mono k x y h l = (le-div_iff_mul-le h).1 (le_trans (div-mul-le_self x k) l)

module _ (fs : FileStorage) (doc : Documented fs) (i : ℕ) (i_is : i < fs.num_files) where
  abbrev off : ℕ
  off = fs.file_offset (pos i)

  abbrev len : ℕ
  len = fs.piece_length

  -- The last piece is long enough for its last byte, so the length is never cut.
  fits_last :
      (b : ℕ)
      → b < fs.file_size (pos i)
      → (off + b) % len + 1 ≤ fs.piece_size (pos ((off + b) / len))
  fits_last b h = omega (
    arith,
    doc.piece_size_at ((off + b) / len)
        (omega (arith, div-add-mod' (off + b) len, doc.file_inside i i_is)),
    div-add-mod' (off + b) len,
    mod-lt (off + b) doc.piece_length_pos,
    doc.file_inside i i_is,
  )

  -- A range of bytes of the file is mapped to exactly the torrent bytes that it stands for.
  pub map_range-IsSpanOf :
      (a b : ℕ)
      → a ≤ b
      → b < fs.file_size (pos i)
      → IsSpanOf len (off + a) (off + b) (map_range (make_mapper fs (pos i)) (bytes a b))
  unfolding map_range make_mapper
  map_range-IsSpanOf a b le lt =
      rw (doc.map_byte i a i_is (omega arith), doc.map_byte i b i_is lt)
        (record {
          first_index = (off + a) / len;
          last_index = (off + b) / len;
          first_is = refl;
          last_is = refl;
          begins = div-add-mod' (off + a) len;
          ends = ground (arith, fits_last b lt, div-add-mod' (off + b) len);
          ordered = div_mono len (off + a) (off + b) doc.piece_length_pos (omega arith);
          offset_inside = mod-lt (off + a) doc.piece_length_pos;
          length_pos = ground (arith, fits_last b lt);
          length_inside = ground (arith, fits_last b lt, mod-lt (off + b) doc.piece_length_pos);
        })

  -- The first and the last piece of a file that is not empty.
  pub ends_of_file :
      0 < fs.file_size (pos i)
      → (first_piece (make_mapper fs (pos i)) ≡ pos (off / len))
        × (end_piece (make_mapper fs (pos i))
            ≡ pos (suc ((off + (fs.file_size (pos i) - 1)) / len)))
  unfolding first_piece end_piece make_mapper
  ends_of_file h = (
    rw (doc.map_byte i 0 i_is h) (ap (λ t. pos (t / len)) (omega arith)),
    ground (arith, doc.map_byte i (fs.file_size (pos i) - 1) i_is (omega arith)),
  )

  -- The byte of the file with which piece `p` is reached.
  abbrev byte_at : ℕ → ℕ
  byte_at p = p * len - off

  piece_of_byte_at : (p : ℕ) → off / len ≤ p → (off + byte_at p) / len ≡ p
  piece_of_byte_at p h = elim (Bool-cases (leb (p * len) off)) [
    | inl at_start ↦ rw (sum_is at_start) (
        omega (
          arith,
          (le-div_iff_mul-le {x = p} {y = off} doc.piece_length_pos).1 (leb→le _ _ at_start),
        ))
    | inr behind ↦ rw (sum_is' behind) (mul-div_cancel p doc.piece_length_pos)
  ]
    where
      sum_is : leb (p * len) off ≡ true → off + byte_at p ≡ off
      sum_is e = omega (arith, leb→le _ _ e)

      sum_is' : leb (p * len) off ≡ false → off + byte_at p ≡ p * len
      sum_is' e = ground arith

  -- The pieces from `first_piece` up to, but not including, `end_piece` are exactly those that hold a
  -- byte of the file, if the file is not empty.
  pub pieces_of_file :
      (p : ℕ)
      → 0 < fs.file_size (pos i)
      → ((first_piece (make_mapper fs (pos i)) ≤ℤ pos p)
          × (pos p <ℤ end_piece (make_mapper fs (pos i))))
        ↔ ((o : ℕ) × (o < fs.file_size (pos i)) × ((off + o) / len ≡ p))
  pieces_of_file p h = (forth, back)
    where
      size : ℕ
      size = fs.file_size (pos i)

      forth :
          (first_piece (make_mapper fs (pos i)) ≤ℤ pos p)
            × (pos p <ℤ end_piece (make_mapper fs (pos i)))
          → (o : ℕ) × (o < size) × ((off + o) / len ≡ p)
      forth (lo, hi) =
          let lo' = rw (ends_of_file h).0 at lo in
          let hi' = rw (ends_of_file h).1 at hi in
          let lo_is : off / len ≤ p = omega arith in
          let hi_is : p ≤ (off + (size - 1)) / len = omega arith in
          (
            byte_at p,
            omega (
              arith,
              (le-div_iff_mul-le {x = p} {y = off + (size - 1)} doc.piece_length_pos).0 hi_is,
            ),
            piece_of_byte_at p lo_is,
          )

      back :
          ((o : ℕ) × (o < size) × ((off + o) / len ≡ p))
          → (first_piece (make_mapper fs (pos i)) ≤ℤ pos p)
            × (pos p <ℤ end_piece (make_mapper fs (pos i)))
      back (o, lt, e) =
          rw ((ends_of_file h).0, (ends_of_file h).1)
            (omega (
              arith,
              div_mono len off (off + o) doc.piece_length_pos (omega arith),
              div_mono len (off + o) (off + (size - 1)) doc.piece_length_pos (omega arith),
            ))
