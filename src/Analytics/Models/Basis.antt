-- ===== src/Analytics/Models/Basis.antt =====
-- include/tpc/analytics/models/basis_models.hpp: the ten default basis functions of each component.
use tpc_api.Prelude.{ℕ, [], ◌∷◌, get_or}
use tpc_api.Double.{Double, ◌⊕◌, ◌⊖◌, ◌⊗◌, nought}

abbrev pub default_modes_count : ℕ
default_modes_count = 10

module _ {ℓ} {W : Type ℓ} ⦃d : Double W⦄ where
  abbrev half : W
  half = d.decimal 5 1

  abbrev three_halves : W
  three_halves = d.decimal 15 1

  abbrev two : W
  two = d.decimal 20 1

  -- `DefaultBasisR`. A `switch` on the mode, by the list of its cases; `0.0` beyond them.
  pub default_basis_r : ℕ → W → W → W → W
  default_basis_r k r phi z =
      get_or
        (nought
          ∷ (d.neg half ⊗ r)
          ∷ (d.neg r ⊗ z)
          ∷ ((d.neg three_halves ⊗ r ⊗ z ⊗ z) ⊕ (d.decimal 375 3 ⊗ r ⊗ r ⊗ r))
          ∷ d.cos phi
          ∷ d.sin phi
          ∷ (z ⊗ d.cos phi)
          ∷ (z ⊗ d.sin phi)
          ∷ (r ⊗ d.cos (two ⊗ phi))
          ∷ (r ⊗ d.sin (two ⊗ phi))
          ∷ [])
        k nought

  pub default_basis_phi : ℕ → W → W → W → W
  default_basis_phi k r phi z =
      get_or
        (nought
          ∷ nought
          ∷ nought
          ∷ nought
          ∷ d.neg (d.sin phi)
          ∷ d.cos phi
          ∷ (d.neg z ⊗ d.sin phi)
          ∷ (z ⊗ d.cos phi)
          ∷ (d.neg r ⊗ d.sin (two ⊗ phi))
          ∷ (r ⊗ d.cos (two ⊗ phi))
          ∷ [])
        k nought

  pub default_basis_z : ℕ → W → W → W → W
  default_basis_z k r phi z =
      get_or
        (d.decimal 10 1
          ∷ z
          ∷ ((z ⊗ z) ⊖ (half ⊗ r ⊗ r))
          ∷ ((z ⊗ z ⊗ z) ⊖ (three_halves ⊗ r ⊗ r ⊗ z))
          ∷ nought
          ∷ nought
          ∷ (r ⊗ d.cos phi)
          ∷ (r ⊗ d.sin phi)
          ∷ nought
          ∷ nought
          ∷ [])
        k nought
