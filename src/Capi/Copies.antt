-- ===== src/Capi/Copies.antt =====
-- The texts that cross the C boundary: the copied id and the allocated strings.
use seekserve.Common.{
  ℕ, zero, suc, ◌-◌, ◌≤◌, ◌<◌, min, ◌≡◌, refl, Option, none, some, [], ◌∷◌, ◌++◌, arith, ◌==◌,
  if◌then◌else◌, length, length-take, length-append, take,
}
use seekserve.Common.Bytes.{Bytes, Lacks}
use seekserve.Capi.{copy_id}

-- What a reader of a C string reads: the bytes before the first NUL; `none` without one.
unfoldable pub c_string : Bytes → Option Bytes
c_string [] = none
c_string (c ∷ s) =
    let rest = c_string s in
    if c == 0 then some [] else elim rest [ none ↦ none | some t ↦ some (c ∷ t) ]

c_string-append : (s : Bytes) → Lacks 0 s → c_string (s ++ (0 ∷ [])) ≡ some s
unfolding c_string
c_string-append [] h = refl
c_string-append (c ∷ s) h = ground (arith, c_string-append s h.1)

take-Lacks : (n : ℕ) (s : Bytes) → Lacks 0 s → Lacks 0 (take n s)
take-Lacks zero s h = tt
take-Lacks (suc n) [] h = tt
take-Lacks (suc n) (c ∷ s) h = (h.0, take-Lacks n s h.1)

-- What ss_add_torrent copies into a buffer of n bytes fits the buffer, its NUL included, and reads as the
-- id cut after n - 1 bytes. The buffer is not empty and the id holds no NUL.
pub copy_id-c_string :
    (id : Bytes) (n : ℕ)
    → 0 < n
    → Lacks 0 id
    → (length (copy_id id n) ≤ n)
      × (c_string (copy_id id n) ≡ some (take (min (n - 1) (length id)) id))
unfolding copy_id
copy_id-c_string id n positive h = (
  omega (
    arith,
    length-append (take (min (n - 1) (length id)) id) (0 ∷ []),
    length-take (min (n - 1) (length id)) id,
  ),
  c_string-append _ (take-Lacks (min (n - 1) (length id)) id h),
)
