-- ===== src/ByteSource/Read.antt =====
-- What a call of `read` may return, under every schedule of the other threads.
use native.Mathlib.Nat.{le-div_iff_mul-le, div-lt_iff_lt-mul}
use seekserve.Common.{
  if◌then◌else◌, ap, Bool, ◌∷◌, ℕ, ◌+◌, ◌-◌, ◌/◌, ◌≤◌, ◌<◌, ◌≡◌, refl, sym, ◌∙◌, true, false, inl,
  inr, some, List, ◌++◌, arith, Bool-cases,
}
use seekserve.Common.Int.{pos}
use seekserve.Common.Bytes.{Bytes}
use seekserve.Types.{PieceSpan, Result, ok, err, cancelled}
use seekserve.Availability.{PieceAvailability, is_complete, is_span_complete}
use seekserve.Availability.Runs.{is_span_complete_iff}
use seekserve.Mapper.{FileStorage, Documented, make_mapper, map_range}
use seekserve.Mapper.Span.{bytes, IsSpanOf, map_range-IsSpanOf}
use seekserve.ByteSource.{
  Disk, Shared, Wake, wakes, settle, ready, wait_for, read_from_disk, read_range, finish_read,
  resume, ByteSource, read, is_available,
}
use seekserve.ByteSource.Waits.{
  Grows-trans, settle-Grows, settle-append, wait_for-Ends, IsSlice, read_from_disk-IsSlice,
  finish_ok, resume_ok, not-cancelled, ready_complete, Grows-complete, IsPatient, wait_for-IsAwake,
  complete_ready, cancelled_ready, ready_cancelled, settle-live,
}

module _ (source : ByteSource) (disk : Disk) (offset len : ℕ) where
  abbrev span_of : PieceSpan
  span_of = map_range source.mapper (read_range offset len)

  -- When `read` returns bytes, they are the file's bytes from `offset` on, `len` at most, and every
  -- piece of the span that they come from is complete by the end of the schedule: it never returns
  -- bytes of a piece that is still missing, however the other threads interleave.
  pub read_ok :
      (s : Shared) (during later : List Wake) {slice : Bytes}
      → read source disk offset len s during later ≡ some (ok slice)
      → (is_span_complete (settle s (during ++ later)).avail span_of ≡ true)
        × IsSlice disk source.file_path offset len slice
  unfolding read
  read_ok s during later {slice} e = elim (Bool-cases s.is_cancelled) [
    | inl gone ↦ absurd (ground arith)
    | inr live ↦
        let (t, b, waited, finished) =
          resume_ok disk source.file_path offset len later (wait_for span_of s during)
            (ground arith) in
        let ends = wait_for-Ends span_of s during waited in
        let (not_gone, in_time, from_disk) =
          finish_ok disk source.file_path offset len (settle t later) b finished in
        let complete =
          ready_complete span_of t
            (not-cancelled t (settle t later) (settle-Grows t later) not_gone)
            (sym ends.answers ∙ in_time) in
        (
          rw (settle-append s during later) (
              Grows-complete span_of t _
                (Grows-trans ends.on_the_way (settle-Grows (settle s during) later)) complete),
          read_from_disk-IsSlice disk source.file_path offset len from_disk,
        )
  ]

read-live :
    (source : ByteSource) (disk : Disk) (offset len : ℕ) (s : Shared) (during later : List Wake)
    → s.is_cancelled ≡ false
    → read source disk offset len s during later
      ≡ resume disk source.file_path offset len later
          (wait_for (map_range source.mapper (read_range offset len)) s during)
unfolding read
read-live source disk offset len s during later live =
    ap
      (λ (b : Bool).
        if b
        then some (err cancelled)
        else resume disk source.file_path offset len later
            (wait_for (map_range source.mapper (read_range offset len)) s during))
      live

finish_read-live :
    (disk : Disk) (path : Bytes) (offset len : ℕ) (s : Shared)
    → s.is_cancelled ≡ false
    → finish_read disk path offset len s true ≡ read_from_disk disk path offset len
unfolding finish_read
finish_read-live disk path offset len s live = rw (live, finish_read) refl

finish_read-cancelled :
    (disk : Disk) (path : Bytes) (offset len : ℕ) (s : Shared) (b : Bool)
    → s.is_cancelled ≡ true
    → finish_read disk path offset len s b ≡ err cancelled
unfolding finish_read
finish_read-cancelled disk path offset len s b gone = rw (gone, finish_read) refl

-- A read returns when its pieces have come: on every schedule on which the span is complete, then the
-- thread is woken, and its time was not up before, `read` returns what it reads from the disk, if
-- nobody cancels the source before the read is over.
pub read_arrives :
    (source : ByteSource) (disk : Disk) (offset len : ℕ) (s : Shared) (ws vs later : List Wake)
    → IsPatient ws
    → is_span_complete (settle s ws).avail (map_range source.mapper (read_range offset len)) ≡ true
    → (settle (settle s ws) later).is_cancelled ≡ false
    → read source disk offset len s (ws ++ (wakes ∷ vs)) later
      ≡ some (read_from_disk disk source.file_path offset len)
unfolding read resume
read_arrives source disk offset len s ws vs later h complete live =
    let span = map_range source.mapper (read_range offset len) in
    let (t, awake, up, grows) =
      wait_for-IsAwake span s ws vs h (complete_ready span (settle s ws) complete) in
    read-live source disk offset len s (ws ++ (wakes ∷ vs)) later (
      not-cancelled s (settle s ws) (settle-Grows s ws) (
        not-cancelled (settle s ws) (settle (settle s ws) later) (settle-Grows (settle s ws) later)
          live))
    ∙ ap (resume disk source.file_path offset len later) awake
    ∙ ap (λ (r : Result Bytes). some r)
        (finish_read-live disk source.file_path offset len (settle t later)
          (settle-live t (settle s ws) later grows live))

-- A read ends when its source is cancelled: on every schedule on which the source is cancelled before the
-- span is complete, then the thread is woken, and its time was not up before, `read` returns `cancelled`.
pub read_cancelled :
    (source : ByteSource) (disk : Disk) (offset len : ℕ) (s : Shared) (ws vs later : List Wake)
    → IsPatient ws
    → is_span_complete (settle s ws).avail (map_range source.mapper (read_range offset len)) ≡ false
    → (settle s ws).is_cancelled ≡ true
    → read source disk offset len s (ws ++ (wakes ∷ vs)) later ≡ some (err cancelled)
unfolding read resume
read_cancelled source disk offset len s ws vs later h missing gone =
    let span = map_range source.mapper (read_range offset len) in
    let (t, awake, up, grows) =
      wait_for-IsAwake span s ws vs h (cancelled_ready span (settle s ws) gone) in
    elim (Bool-cases s.is_cancelled) [
      | inl at_once ↦ rw at_once refl
      | inr live ↦
          read-live source disk offset len s (ws ++ (wakes ∷ vs)) later live
          ∙ ap (resume disk source.file_path offset len later) awake
          ∙ ap (λ (r : Result Bytes). some r)
              (finish_read-cancelled disk source.file_path offset len (settle t later) true (
                (settle-Grows t later).stays
                  (ready_cancelled span t (settle s ws) grows missing up)))
    ]

-- If the bytes are available and nobody cancels, `read` goes to the disk at once, whatever else
-- the other threads do.
pub read_available :
    (source : ByteSource) (disk : Disk) (offset len : ℕ) (s : Shared) (during later : List Wake)
    → is_available source s.avail offset len ≡ true
    → (settle s later).is_cancelled ≡ false
    → read source disk offset len s during later
      ≡ some (read_from_disk disk source.file_path offset len)
unfolding read wait_for ready is_available resume finish_read
read_available source disk offset len s during later h live =
    ground (arith, not-cancelled s (settle s later) (settle-Grows s later) live)

module _ (fs : FileStorage) (doc : Documented fs) (i : ℕ) (i_is : i < fs.num_files) where
  read_range-bytes :
      (offset len : ℕ) → 0 < len → read_range offset len ≡ bytes offset (offset + len - 1)
  read_range-bytes offset len h = ground arith

  -- The pieces that hold the bytes of a complete span of the file are complete.
  span_bytes :
      (a : PieceAvailability) (offset len o : ℕ)
      → 0 < len
      → offset + len ≤ fs.file_size (pos i)
      → is_span_complete a (map_range (make_mapper fs (pos i)) (read_range offset len)) ≡ true
      → offset ≤ o
      → o < offset + len
      → is_complete a (pos ((fs.file_offset (pos i) + o) / fs.piece_length)) ≡ true
  span_bytes a offset len o h fits complete lo hi =
      (is_span_complete_iff a span).0 complete (pos piece)
        (rw at_span.first_is (omega (arith, first_le)))
        (rw at_span.last_is (omega (arith, piece_le)))
    where
      span : PieceSpan
      span = map_range (make_mapper fs (pos i)) (read_range offset len)

      off : ℕ
      off = fs.file_offset (pos i)

      piece : ℕ
      piece = (off + o) / fs.piece_length

      at_span : IsSpanOf fs.piece_length (off + offset) (off + (offset + len - 1)) span
      at_span =
          rw (read_range-bytes offset len h)
            (map_range-IsSpanOf fs doc i i_is offset (offset + len - 1) (omega arith) (omega arith))

      first_le : at_span.first_index ≤ piece
      first_le = (le-div_iff_mul-le doc.piece_length_pos).1 (omega (arith, at_span.begins))

      piece_le : piece < at_span.last_index + 1
      piece_le =
          (div-lt_iff_lt-mul doc.piece_length_pos).1
            (omega (arith, at_span.ends, at_span.length_inside))

  -- When a read of `len` bytes inside the file returns bytes, the piece of each of these bytes has been
  -- downloaded by the end of the schedule.
  pub read_ok_pieces :
      (path : Bytes) (disk : Disk) (offset len o : ℕ) (s : Shared) (during later : List Wake)
      {slice : Bytes}
      → 0 < len
      → offset + len ≤ fs.file_size (pos i)
      → read
          (record { file_path = path; mapper = make_mapper fs (pos i) })
          disk
          offset
          len
          s
          during
          later
        ≡ some (ok slice)
      → offset ≤ o
      → o < offset + len
      → is_complete
          (settle s (during ++ later)).avail
          (pos ((fs.file_offset (pos i) + o) / fs.piece_length))
        ≡ true
  read_ok_pieces path disk offset len o s during later h fits e lo hi =
      span_bytes _ offset len o h fits
        (read_ok (record { file_path = path; mapper = make_mapper fs (pos i) }) disk offset len s
          during later e).0
        lo hi
