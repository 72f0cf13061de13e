-- ===== src/Prelude/UnorderedMap/View.antt =====
-- A map as its users see it, by `find`: the quotient of the lists of entries that forgets the order in
-- which the map is walked.
use tpc_api.Prelude.Tests.{Eq}
use tpc_api.Prelude.UnorderedMap.{UnorderedMap, find}
use mathlib.Core.Path.{◌≡◌}
use mathlib.Core.Quot.{Quot}

module _ {ℓ κ} {K : Type ℓ} {V' : Type κ} ⦃e : Eq K⦄ where
  abbrev pub SameEntries : UnorderedMap K V' → UnorderedMap K V' → Type (ℓ ⊔ κ)
  SameEntries m m' = (k : K) → find m k ≡ find m' k

abbrev pub View {ℓ κ} : (K : Type ℓ) (A : Type κ) → ⦃e : Eq K⦄ → Type (ℓ ⊔ κ)
View K A ⦃e⦄ = Quot (SameEntries {K = K} {V' = A} ⦃e = e⦄)

abbrev pub view {ℓ κ} : {K : Type ℓ} {A : Type κ} ⦃e : Eq K⦄ → UnorderedMap K A → View K A
view m = Quot.mk m
