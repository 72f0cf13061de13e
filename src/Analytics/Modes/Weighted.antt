-- ===== src/Analytics/Modes/Weighted.antt =====
-- The loop over the modes is a weighted sum of the basis functions.
use tpc_api.Double.{Double, ◌⊕◌, ◌⊗◌, nought}
use tpc_api.Prelude.{
  ℕ, suc, ◌≡◌, refl, sym, ◌∙◌, some, List, [], ◌∷◌, ◌++◌, length, get_elem?, returned,
  get_elem?-append, length-snoc, snoc-append, loop,
}
use tpc_api.Analytics.Models.{Array3}
use tpc_api.Analytics.Basis.{Function}
use tpc_api.Analytics.Modes.{add_mode, components_at}

-- A basis of three functions that are set.
abbrev pub functions {ℓ} : {W : Type ℓ} → (f g h : ℕ → W → W → W → W) → List (Function W)
functions f g h =
    record { function = some f } ∷ record { function = some g } ∷ record { function = some h } ∷ []

module _ {ℓ} {W : Type ℓ} ⦃d : Double W⦄ where
  -- sum + c₀ * g first + c₁ * g (first + 1) + …, added from the left.
  abbrev pub weighted : (ℕ → W) → List W → ℕ → W → W
  weighted g [] first sum = sum
  weighted g (c ∷ cs) first sum = weighted g cs (suc first) (sum ⊕ (c ⊗ g first))

  -- The field that the coefficients give at a point.
  abbrev pub field_at : (f g h : ℕ → W → W → W → W) → List W → Array3 W → Array3 W
  field_at f g h coefficients (r, phi, z) = (
    weighted (λ k. f k r phi z) coefficients 0 nought,
    weighted (λ k. g k r phi z) coefficients 0 nought,
    weighted (λ k. h k r phi z) coefficients 0 nought,
  )

  add_modes :
      (f g h : ℕ → W → W → W → W) (all before_ cs : List W) (r phi z a b c : W)
      → all ≡ before_ ++ cs
      → loop (length cs) (length before_) (add_mode (functions f g h) all (r, phi, z)) (a, b, c)
        ≡ returned (
          weighted (λ k. f k r phi z) cs (length before_) a,
          weighted (λ k. g k r phi z) cs (length before_) b,
          weighted (λ k. h k r phi z) cs (length before_) c,
        )
  unfolding components_at
  add_modes f g h all prev [] r phi z a b c e = refl
  add_modes f g h all prev (x ∷ cs) r phi z a b c e =
      let here : get_elem? all (length prev) ≡ some x = rw e (get_elem?-append prev x cs) in
      let rest =
        add_modes f g h all (prev ++ (x ∷ [])) cs r phi z (a ⊕ (x ⊗ f (length prev) r phi z))
          (b ⊕ (x ⊗ g (length prev) r phi z)) (c ⊕ (x ⊗ h (length prev) r phi z))
          (e ∙ sym (snoc-append prev x cs)) in
      rw here (rw (length-snoc prev x) at rest)

  -- With three functions set and a coefficient for each mode, the loops give the weighted sums.
  pub components_at-field_at :
      (f g h : ℕ → W → W → W → W) (coefficients : List W) (p : Array3 W) (modes : ℕ)
      → length coefficients ≡ modes
      → components_at (functions f g h) coefficients p modes
        ≡ returned (field_at f g h coefficients p)
  unfolding components_at
  components_at-field_at f g h coefficients (r, phi, z) modes e =
      rw (← e) (add_modes f g h coefficients [] coefficients r phi z nought nought nought refl)
