-- ===== src/Demo/Local.antt =====
-- main.cpp: `serve_local_file`, the pieces of the file and their availability.
use seekserve.Common.{
  ℕ, zero, suc, ◌+◌, ◌-◌, ◌*◌, ◌/◌, ◌≤◌, ◌<◌, ◌≡◌, refl, ◌∙◌, true, arith, ◌≢◌, inl, inr,
  equal_cases,
}
use seekserve.Common.Int.{pos}
use seekserve.Availability.{PieceAvailability, unset, reset, mark_complete, is_complete}
use seekserve.Availability.Marks.{
  IsValid, reset-IsValid, mark_complete-IsValid, is_complete-mark_complete, is_complete_mono,
}

abbrev pub local_piece_length : ℕ
local_piece_length = 1024 * 1024

-- (file_size + piece_length - 1) / piece_length
unfoldable pub num_pieces_of : ℕ → ℕ
num_pieces_of file_size = (file_size + local_piece_length - 1) / local_piece_length

-- file_size - (num_pieces - 1) * piece_length; without a piece the factor is -1.
unfoldable pub last_piece_size_of : ℕ → ℕ
unfolding num_pieces_of
last_piece_size_of file_size =
    file_size + local_piece_length - num_pieces_of file_size * local_piece_length

-- The loop that marks the pieces from 0 below `n`.
unfoldable pub mark_first : ℕ → PieceAvailability → PieceAvailability
unfolding mark_complete
mark_first zero a = a
mark_first (suc n) a = mark_complete (mark_first n a) (pos n)

unfoldable pub local_avail : ℕ → PieceAvailability
unfolding reset mark_first last_piece_size_of
local_avail file_size =
    mark_first (num_pieces_of file_size)
      (reset (num_pieces_of file_size) local_piece_length (last_piece_size_of file_size) unset)

-- The pieces of a file that is not empty cover it: the last one has at least a byte and at most the length
-- of a piece, the others have that length, and together they have the size of the file.
last_piece_size_of-sum :
    (file_size : ℕ)
    → 0 < file_size
    → (0 < last_piece_size_of file_size)
      × (last_piece_size_of file_size ≤ local_piece_length)
      × ((num_pieces_of file_size - 1) * local_piece_length + last_piece_size_of file_size
          ≡ file_size)
unfolding last_piece_size_of num_pieces_of
last_piece_size_of-sum file_size h = (omega arith, omega arith, omega arith)

mark_first-IsValid : (n : ℕ) (a : PieceAvailability) → IsValid a → IsValid (mark_first n a)
unfolding mark_first
mark_first-IsValid zero a v = v
mark_first-IsValid (suc n) a v =
    mark_complete-IsValid (mark_first n a) (pos n) (mark_first-IsValid n a v)

num_pieces-mark_complete :
    (a : PieceAvailability) (p : ℕ) → (mark_complete a (pos p)).num_pieces ≡ a.num_pieces
unfolding mark_complete
num_pieces-mark_complete a p = ground arith

num_pieces-mark_first : (n : ℕ) (a : PieceAvailability) → (mark_first n a).num_pieces ≡ a.num_pieces
unfolding mark_first
num_pieces-mark_first zero a = refl
num_pieces-mark_first (suc n) a =
    num_pieces-mark_complete (mark_first n a) n ∙ num_pieces-mark_first n a

mark_first-is_complete :
    (n p : ℕ) (a : PieceAvailability)
    → IsValid a
    → p < n
    → n ≤ a.num_pieces
    → is_complete (mark_first n a) (pos p) ≡ true
unfolding mark_first
mark_first-is_complete zero p a v h k = absurd (omega arith)
mark_first-is_complete (suc n) p a v h k = elim (equal_cases p n) [
  | inl e ↦ ground (
    arith,
    is_complete-mark_complete (mark_first n a) (pos n) (pos p) (mark_first-IsValid n a v),
    num_pieces-mark_first n a,
    e,
  )
  | inr e ↦
      is_complete_mono (mark_first n a) (pos n) (pos p)
        (mark_first-is_complete n p a v (omega (arith, strict p n h e)) (omega arith))
]
  where
    strict : (p n : ℕ) → p < suc n → p ≢ n → p < n
    strict p n h e = ground arith

num_pieces-local_avail :
    (file_size : ℕ) → (local_avail file_size).num_pieces ≡ num_pieces_of file_size
unfolding local_avail reset
num_pieces-local_avail file_size = num_pieces-mark_first (num_pieces_of file_size) _

-- A local file is whole: its pieces have together the size of the file, the last one at least a byte and at
-- most a piece, and every piece is complete before the server starts. The file is not empty.
pub local_avail-IsFull :
    (file_size p : ℕ)
    → 0 < file_size
    → p < num_pieces_of file_size
    → (is_complete (local_avail file_size) (pos p) ≡ true)
      × (0 < last_piece_size_of file_size)
      × (last_piece_size_of file_size ≤ local_piece_length)
      × ((num_pieces_of file_size - 1) * local_piece_length + last_piece_size_of file_size
          ≡ file_size)
unfolding local_avail reset
local_avail-IsFull file_size p h k =
    let (positive, small, sum) = last_piece_size_of-sum file_size h in
    (
      mark_first-is_complete (num_pieces_of file_size) p
          (reset (num_pieces_of file_size) local_piece_length (last_piece_size_of file_size) unset)
          (reset-IsValid _ _ _ unset) k (omega arith),
      positive,
      small,
      sum,
    )
