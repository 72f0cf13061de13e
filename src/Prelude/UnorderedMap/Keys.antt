-- ===== src/Prelude/UnorderedMap/Keys.antt =====
-- The keys of a map among those of another.
use tpc_api.Prelude.Tests.{Eq}
use tpc_api.Prelude.Lists.{length}
use tpc_api.Prelude.UnorderedMap.{UnorderedMap, contains, erase, IsMap}
use Prim.Native.Nat.{suc, ◌≤◌}
use mathlib.Core.Path.{◌≡◌}
use mathlib.Core.Bool.{true, false}
use mathlib.Core.List.{[], ◌∷◌}
use native.Mathlib.Omega.{arith}

module _ {ℓ κ ρ} {K : Type ℓ} {V : Type κ} {V' : Type ρ} ⦃e : Eq K⦄ where
  abbrev pub Includes : UnorderedMap K V → UnorderedMap K V' → Type ℓ
  Includes m n = (k : K) → contains m k ≡ true → contains n k ≡ true

module _ {ℓ κ} {K : Type ℓ} {V : Type κ} ⦃e : Eq K⦄ where
  length-erase :
      (m : UnorderedMap K V) (k : K) → contains m k ≡ true → suc (length (erase m k)) ≡ length m
  unfolding contains erase
  length-erase [] k h = ground arith
  length-erase ((i, w) ∷ m) k h = ground (arith, length-erase m k)

  contains-erase :
      (m : UnorderedMap K V) (k j : K)
      → e.beq k j ≡ false
      → contains m j ≡ true
      → contains (erase m k) j ≡ true
  unfolding contains erase
  contains-erase [] k j differs h = h
  contains-erase ((i, w) ∷ m) k j differs h =
      ground (arith, e.beq_iff i k, e.beq_iff i j, e.beq_iff k j, contains-erase m k j)

-- A map with distinct keys has no more entries than a map that has all of its keys.
pub length-le {ℓ κ ρ} :
    {K : Type ℓ} {V : Type κ} {V' : Type ρ} ⦃e : Eq K⦄ (m : UnorderedMap K V)
    (n : UnorderedMap K V')
    → IsMap m
    → Includes m n
    → length m ≤ length n
unfolding contains
length-le [] n h within = omega arith
length-le ⦃e⦄ ((k, v) ∷ m) n (free, h) within =
    let rest : Includes m (erase n k) = λ j has.
      contains-erase n k j (ground (arith, e.beq_iff k j, free, has))
        (within j (ground (arith, has))) in
    let here : contains n k ≡ true = within k (ground (arith, e.beq_iff k k)) in
    omega (arith, length-le m (erase n k) h rest, length-erase n k here)
