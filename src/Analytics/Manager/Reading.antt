-- ===== src/Analytics/Manager/Reading.antt =====
-- What can be read from a manager, whatever was called before.
use tpc_api.Double.{Double}
use tpc_api.Prelude.{
  ℕ, ◌%◌, ◌≡◌, refl, ◌⊎◌, inl, inr, Bool, true, false, not, some, List, [], ◌∷◌, arith, Bool-cases,
  length, Expected, expected, unexpected, Outcome, returned, thrown, failed, undefined, fail_if,
  attempt, attempt_cases,
}
use tpc_api.Analytics.FieldCollection.{FieldCollection, resize_field_to_coordinates}
use tpc_api.Analytics.Manager.{
  Manager, get_field_data, fill_field, calculate_field_kernel, calculate_field, regrid, store_field,
  cleared, invalidated, validate, has_coefficients, calculate_grid_kernel,
}

-- Three values at each point and as many as coordinates, or the one message that there is no field.
abbrev pub IsReading {ℓ} : {W : Type ℓ} → Expected (List W × List W) → Type 0
IsReading (expected (coordinates, field)) =
    (length field ≡ length coordinates) × (length coordinates % 3 ≡ 0)
IsReading (unexpected error) = error ≡ "Field data is not calculated"

module _ {ℓ} {W : Type ℓ} where
  -- A field with three values at each point, and as many values as coordinates.
  abbrev pub IsComplete : FieldCollection W → Type 0
  IsComplete c = (length c.field ≡ length c.coordinates) × (length c.coordinates % 3 ≡ 0)

  -- What a valid field is: there is one, and it is complete.
  abbrev pub IsManager : Manager W → Type ℓ
  IsManager m =
      m.field_data_valid ≡ true → (c : FieldCollection W) × (m.field_data ≡ some c) × IsComplete c

  pub get_field_data-IsReading : (m : Manager W) → IsManager m → IsReading (get_field_data m)
  unfolding get_field_data
  get_field_data-IsReading m v = elim (Bool-cases m.field_data_valid) [
    | inl valid ↦ let (c, here, whole) = v valid in rw (valid, here) whole
    | inr invalid ↦ rw invalid refl
  ]

  -- After `calculate_field`: a complete and readable field if it succeeded; else the manager as it
  -- was, or no field to be read. Basis and coefficients stay in each case.
  abbrev pub Settled : Manager W → Manager W × Outcome (Unit {0}) → Type ℓ
  Settled m (after, returned _) =
      ((c : FieldCollection W) × (get_field_data after ≡ expected (c.coordinates, c.field))
        × (after.field_data ≡ some c)
        × IsComplete c)
      × (after.basis_collection ≡ m.basis_collection)
      × (after.stored_coefficients ≡ m.stored_coefficients)
  Settled m (after, _) =
      ((after ≡ m)
        ⊎ ((after.field_data_valid ≡ false)
            × (get_field_data after ≡ unexpected "Field data is not calculated")))
      × (after.basis_collection ≡ m.basis_collection)
      × (after.stored_coefficients ≡ m.stored_coefficients)

module _ {ℓ} {W : Type ℓ} ⦃d : Double W⦄ where
  length-fill_field :
      (m : Manager W) (coordinates field : List W)
      → length (fill_field m coordinates field).0 ≡ length field
  unfolding fill_field
  length-fill_field m (r ∷ phi ∷ z ∷ cs) (a ∷ b ∷ c ∷ field) =
      ground (arith, length-fill_field m cs field)
  length-fill_field m [] field = refl
  length-fill_field m (r ∷ []) field = refl
  length-fill_field m (r ∷ phi ∷ []) field = refl
  length-fill_field m (r ∷ phi ∷ z ∷ cs) [] = refl
  length-fill_field m (r ∷ phi ∷ z ∷ cs) (a ∷ []) = refl
  length-fill_field m (r ∷ phi ∷ z ∷ cs) (a ∷ b ∷ []) = refl

  -- A kernel that returns has found buffers of one size, which is a multiple of three.
  kernel-IsComplete :
      (m : Manager W) (coordinates field : List W) (u : Unit {0})
      → (calculate_field_kernel m coordinates field).1 ≡ returned u
      → (length (calculate_field_kernel m coordinates field).0 ≡ length coordinates)
        × (length coordinates % 3 ≡ 0)
  unfolding calculate_field_kernel
  kernel-IsComplete m coordinates field u e = ground (arith, length-fill_field m coordinates field)

  -- The manager with the field that the kernel has written.
  abbrev written : Manager W → FieldCollection W → Bool → Manager W
  written m c valid = record m {
    field_data = some (record c { field = (calculate_field_kernel m c.coordinates c.field).0 });
    field_data_valid = valid;
  }

  kernel-Settled :
      (m : Manager W) (c : FieldCollection W)
      → Settled m (
          attempt
            (written m c false)
            (calculate_field_kernel m c.coordinates c.field).1
            (λ _. (written m c true, returned tt)))
  unfolding get_field_data
  kernel-Settled m c =
      let after = record c { field = (calculate_field_kernel m c.coordinates c.field).0 } in
      attempt_cases (Settled m) (written m c false)
        (calculate_field_kernel m c.coordinates c.field).1 (λ _. (written m c true, returned tt))
        (λ e. (inr (refl, refl), refl, refl)) (λ x. (inr (refl, refl), refl, refl))
        (inr (refl, refl), refl, refl)
        λ u ran. ((after, refl, refl, kernel-IsComplete m c.coordinates c.field u ran), refl, refl)

  regrid-Settled :
      (fuel : ℕ) (m : Manager W) (grid : ℕ × ℕ × ℕ) (radius z_length : W)
      → Settled m (regrid fuel m grid radius z_length)
  unfolding regrid get_field_data
  regrid-Settled fuel m grid radius z_length =
      attempt_cases (Settled m) (invalidated m)
        (calculate_grid_kernel fuel (cleared m.field_data) grid radius z_length) (store_field m)
        (λ e. (inr (refl, refl), refl, refl)) (λ x. (inr (refl, refl), refl, refl))
        (inr (refl, refl), refl, refl)
        λ gridded _. kernel-Settled m (resize_field_to_coordinates gridded)

  -- A calculation that succeeds leaves a complete field that can be read. One that fails leaves the
  -- manager as it was, if its arguments or the coefficients are refused; otherwise no field can be
  -- read, so that no result of an earlier calculation is taken for the new one. Basis and
  -- coefficients stay.
  pub calculate_field-Settled :
      (fuel : ℕ) (m : Manager W) (grid : ℕ × ℕ × ℕ) (radius z_length : W)
      → Settled m (calculate_field fuel m grid radius z_length)
  unfolding calculate_field
  calculate_field-Settled fuel m grid radius z_length =
      let checked = λ (_ : Unit {0}). regrid fuel m grid radius z_length in
      let no_coefficients : Outcome (Unit {0}) =
        fail_if (not (has_coefficients m)) "SVD coefficients are not calculated" in
      attempt_cases (Settled m) m (validate m radius z_length)
        (λ _. attempt m no_coefficients checked) (λ e. (inl refl, refl, refl))
        (λ x. (inl refl, refl, refl)) (inl refl, refl, refl)
        λ _ _.
          attempt_cases (Settled m) m no_coefficients checked (λ e. (inl refl, refl, refl))
            (λ x. (inl refl, refl, refl)) (inl refl, refl, refl)
            λ _ _. regrid-Settled fuel m grid radius z_length

  Settled-IsManager :
      (m after : Manager W) (o : Outcome (Unit {0}))
      → Settled m (after, o)
      → IsManager m
      → IsManager after
  unfolding get_field_data
  Settled-IsManager m after (returned u) ((c, e, here, whole), _, _) v = λ _. (c, here, whole)
  Settled-IsManager m after (failed x) (inl same, _, _) v = rw same v
  Settled-IsManager m after (failed x) (inr (invalid, _), _, _) v = λ valid. cc
  Settled-IsManager m after (thrown x) (inl same, _, _) v = rw same v
  Settled-IsManager m after (thrown x) (inr (invalid, _), _, _) v = λ valid. cc
  Settled-IsManager m after undefined (inl same, _, _) v = rw same v
  Settled-IsManager m after undefined (inr (invalid, _), _, _) v = λ valid. cc

  -- A calculation keeps what a valid field is: whatever its outcome, a field that is marked valid is
  -- there, with three values at each point and as many values as coordinates.
  pub calculate_field-IsManager :
      (fuel : ℕ) (m : Manager W) (grid : ℕ × ℕ × ℕ) (radius z_length : W)
      → IsManager m
      → IsManager (calculate_field fuel m grid radius z_length).0
  calculate_field-IsManager fuel m grid radius z_length =
      Settled-IsManager m _ (calculate_field fuel m grid radius z_length).1
        (calculate_field-Settled fuel m grid radius z_length)
