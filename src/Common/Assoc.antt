-- ===== src/Common/Assoc.antt =====
-- std::unordered_map with std::string keys, as an association list. No operation of the program
-- depends on the order in which the map is walked, except where a comment says so.
use mathlib.Core.Path.{◌≡◌, refl}
use mathlib.Core.List.{List, [], ◌∷◌}
use mathlib.Core.Option.{Option, none, some}
use native.Mathlib.Omega.{arith}
use seekserve.Common.Tests.{if◌then◌else◌, Bool-cases}
use mathlib.Core.Logic.{inl, inr}
use seekserve.Common.Bytes.{Bytes, bytes_eq, bytes_eq_iff}

abbrev pub Assoc {ℓ} : Type ℓ → Type ℓ
Assoc V = List (Bytes × V)

module _ {ℓ} {V : Type ℓ} where
  -- find
  unfoldable pub lookup : Bytes → Assoc V → Option V
  lookup k [] = none
  lookup k ((j, v) ∷ m) = if bytes_eq j k then some v else lookup k m

  -- operator[] on the left of an assignment
  unfoldable pub insert : Bytes → V → Assoc V → Assoc V
  insert k v [] = (k, v) ∷ []
  insert k v ((j, w) ∷ m) = if bytes_eq j k then (k, v) ∷ m else (j, w) ∷ insert k v m

  -- erase(key)
  unfoldable pub erase : Bytes → Assoc V → Assoc V
  erase k [] = []
  erase k ((j, w) ∷ m) = let rest = erase k m in if bytes_eq j k then rest else (j, w) ∷ rest

  pub lookup-insert :
      (k j : Bytes) (v : V) (m : Assoc V)
      → lookup j (insert k v m) ≡ (if bytes_eq k j then some v else lookup j m)
  unfolding lookup insert
  lookup-insert k j v [] = refl
  lookup-insert k j v ((i, w) ∷ m) =
      ground (arith, bytes_eq_iff k j, bytes_eq_iff i k, bytes_eq_iff i j, lookup-insert k j v m)

  pub lookup-erase :
      (k j : Bytes) (m : Assoc V)
      → lookup j (erase k m) ≡ (if bytes_eq k j then none else lookup j m)
  unfolding lookup erase
  lookup-erase k j [] = ground arith
  lookup-erase k j ((i, w) ∷ m) =
      ground (arith, bytes_eq_iff k j, bytes_eq_iff i k, bytes_eq_iff i j, lookup-erase k j m)

module _ {ℓ κ} {V : Type ℓ} (P : V → Type κ) where
  -- Every entry has a property.
  abbrev pub AllEntries : Assoc V → Type κ
  AllEntries [] = Unit
  AllEntries ((k, v) ∷ m) = P v × AllEntries m

  abbrev pub AllSome : Option V → Type κ
  AllSome none = Unit
  AllSome (some v) = P v

  pub AllEntries-lookup : (k : Bytes) (m : Assoc V) → AllEntries m → AllSome (lookup k m)
  unfolding lookup
  AllEntries-lookup k [] h = tt
  AllEntries-lookup k ((j, w) ∷ m) (hw, hm) = elim (Bool-cases (bytes_eq j k)) [
    | inl same ↦ rw same hw
    | inr apart ↦ rw apart (AllEntries-lookup k m hm)
  ]

  pub AllEntries-insert :
      (k : Bytes) (v : V) (m : Assoc V) → P v → AllEntries m → AllEntries (insert k v m)
  unfolding insert
  AllEntries-insert k v [] p h = (p, tt)
  AllEntries-insert k v ((j, w) ∷ m) p (hw, hm) = elim (Bool-cases (bytes_eq j k)) [
    | inl same ↦ rw same (p, hm)
    | inr apart ↦ rw apart (hw, AllEntries-insert k v m p hm)
  ]

  pub AllEntries-erase : (k : Bytes) (m : Assoc V) → AllEntries m → AllEntries (erase k m)
  unfolding erase
  AllEntries-erase k [] h = tt
  AllEntries-erase k ((j, w) ∷ m) (hw, hm) = elim (Bool-cases (bytes_eq j k)) [
    | inl same ↦ rw same (AllEntries-erase k m hm)
    | inr apart ↦ rw apart (hw, AllEntries-erase k m hm)
  ]

pub AllEntries-map {ℓ κ} :
    {V : Type ℓ} (P Q : V → Type κ) (m : Assoc V)
    → ((v : V) → P v → Q v)
    → AllEntries P m
    → AllEntries Q m
AllEntries-map P Q [] f h = tt
AllEntries-map P Q ((k, v) ∷ m) f (hv, hm) = (f v hv, AllEntries-map P Q m f hm)
