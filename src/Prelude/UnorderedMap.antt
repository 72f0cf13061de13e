-- ===== src/Prelude/UnorderedMap.antt =====
-- `std::unordered_map`, as a list of entries with distinct keys. The order of the list stands for
-- the order in which the map is walked, which the C++ standard leaves open.
pub mod Keys
pub mod View
use tpc_api.Prelude.Tests.{Eq, if◌then◌else◌, Bool-cases}
use tpc_api.Prelude.Lists.{length}
use Prim.Native.Nat.{suc}
use mathlib.Core.Path.{◌≡◌, refl}
use mathlib.Core.Logic.{inl, inr}
use mathlib.Core.Bool.{Bool, true, false, ◌||◌}
use mathlib.Core.Option.{Option, none, some}
use mathlib.Core.List.{List, [], ◌∷◌}
use native.Mathlib.Omega.{arith}

abbrev pub UnorderedMap {ℓ κ} : Type ℓ → Type κ → Type (ℓ ⊔ κ)
UnorderedMap K V = List (K × V)

module _ {ℓ κ} {K : Type ℓ} {V : Type κ} ⦃e : Eq K⦄ where
  unfoldable pub find : UnorderedMap K V → K → Option V
  find [] k = none
  find ((j, v) ∷ m) k = if e.beq j k then some v else find m k

  unfoldable pub contains : UnorderedMap K V → K → Bool
  contains [] k = false
  contains ((j, v) ∷ m) k = e.beq j k || contains m k

  -- A new key goes to the end; an old one has its value replaced.
  unfoldable pub insert_or_assign : UnorderedMap K V → K → V → UnorderedMap K V
  insert_or_assign [] k v = (k, v) ∷ []
  insert_or_assign ((j, w) ∷ m) k v =
      if e.beq j k then (j, v) ∷ m else (j, w) ∷ insert_or_assign m k v

  -- `emplace` keeps the value of a key that is present.
  unfoldable pub emplace : UnorderedMap K V → K → V → UnorderedMap K V
  emplace m k v = if contains m k then m else insert_or_assign m k v

  unfoldable pub erase : UnorderedMap K V → K → UnorderedMap K V
  erase [] k = []
  erase ((j, w) ∷ m) k = if e.beq j k then m else (j, w) ∷ erase m k

  -- The keys are distinct.
  abbrev pub IsMap : UnorderedMap K V → Type 0
  IsMap [] = Unit
  IsMap ((k, v) ∷ m) = (contains m k ≡ false) × IsMap m

  pub contains-find : (m : UnorderedMap K V) (k : K) → contains m k ≡ false → find m k ≡ none
  unfolding contains find
  contains-find [] k h = refl
  contains-find ((j, w) ∷ m) k h = ground (arith, contains-find m k)

  pub find-contains :
      (m : UnorderedMap K V) (k : K) → contains m k ≡ true → (v : V) × (find m k ≡ some v)
  unfolding contains find
  find-contains [] k h = cc
  find-contains ((j, w) ∷ m) k h = elim (Bool-cases (e.beq j k)) [
    | inl same ↦ (w, ground arith)
    | inr differs ↦ let (v, p) = find-contains m k (ground arith) in (v, ground arith)
  ]

  pub find-insert_or_assign :
      (m : UnorderedMap K V) (k j : K) (v : V)
      → find (insert_or_assign m k v) j ≡ (if e.beq k j then some v else find m j)
  unfolding find insert_or_assign
  find-insert_or_assign [] k j v = refl
  find-insert_or_assign ((i, w) ∷ m) k j v =
      ground (arith, e.beq_iff i k, e.beq_iff i j, e.beq_iff k j, find-insert_or_assign m k j v)

  pub contains-insert_or_assign :
      (m : UnorderedMap K V) (k j : K) (v : V)
      → contains (insert_or_assign m k v) j ≡ (e.beq k j || contains m j)
  unfolding contains insert_or_assign
  contains-insert_or_assign [] k j v = refl
  contains-insert_or_assign ((i, w) ∷ m) k j v =
      ground (arith, e.beq_iff i k, e.beq_iff i j, e.beq_iff k j, contains-insert_or_assign m k j v)

  pub length-insert_or_assign :
      (m : UnorderedMap K V) (k : K) (v : V)
      → length (insert_or_assign m k v) ≡ (if contains m k then length m else suc (length m))
  unfolding contains insert_or_assign
  length-insert_or_assign [] k v = refl
  length-insert_or_assign ((i, w) ∷ m) k v = ground (arith, length-insert_or_assign m k v)

  pub insert_or_assign-IsMap :
      (m : UnorderedMap K V) (k : K) (v : V) → IsMap m → IsMap (insert_or_assign m k v)
  unfolding contains insert_or_assign
  insert_or_assign-IsMap [] k v h = ground arith
  insert_or_assign-IsMap ((i, w) ∷ m) k v h = ground (
    arith,
    e.beq_iff i k,
    e.beq_iff k i,
    contains-insert_or_assign m k i v,
    insert_or_assign-IsMap m k v h.1,
  )

  pub emplace-IsMap : (m : UnorderedMap K V) (k : K) (v : V) → IsMap m → IsMap (emplace m k v)
  unfolding emplace
  emplace-IsMap m k v h = ground (arith, insert_or_assign-IsMap m k v h)

  pub find-emplace :
      (m : UnorderedMap K V) (k j : K) (v : V)
      → find (emplace m k v) j
        ≡ (if contains m k then find m j else if e.beq k j then some v else find m j)
  unfolding emplace
  find-emplace m k j v = ground (arith, find-insert_or_assign m k j v)

  pub contains-erase_other :
      (m : UnorderedMap K V) (k j : K) → contains m j ≡ false → contains (erase m k) j ≡ false
  unfolding contains erase
  contains-erase_other [] k j h = refl
  contains-erase_other ((i, w) ∷ m) k j h = ground (arith, contains-erase_other m k j)

  pub erase-IsMap : (m : UnorderedMap K V) (k : K) → IsMap m → IsMap (erase m k)
  unfolding contains erase
  erase-IsMap [] k h = tt
  erase-IsMap ((i, w) ∷ m) k h = ground (arith, contains-erase_other m k i, erase-IsMap m k h.1)

  pub find-erase :
      (m : UnorderedMap K V) (k j : K)
      → IsMap m
      → find (erase m k) j ≡ (if e.beq k j then none else find m j)
  unfolding find erase contains
  find-erase [] k j h = ground arith
  find-erase ((i, w) ∷ m) k j h =
      ground (
        arith,
        e.beq_iff i k,
        e.beq_iff i j,
        e.beq_iff k j,
        contains-find m i,
        find-erase m k j h.1,
      )
