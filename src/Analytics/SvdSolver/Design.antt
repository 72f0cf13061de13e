-- ===== src/Analytics/SvdSolver/Design.antt =====
-- The system that `solve_svd` hands to Eigen, for measurements of three components.
use mathlib.Core.List.{append_assoc}
use tpc_api.Double.{Double, nought}
use tpc_api.Prelude.{
  ℕ, zero, suc, ◌*◌, ◌/◌, ◌≤◌, ◌<◌, ◌≡◌, refl, sym, ◌∙◌, false, some, List, [], ◌∷◌, ◌++◌, arith,
  index_max, ltb, ◌==◌, length, get_elem?, replicate, length-append, returned, get_elem?-append,
  length-snoc, snoc-append, loop,
}
use tpc_api.Analytics.Models.{Array3, span, Measurement}
use tpc_api.Analytics.Basis.{Function}
use tpc_api.Analytics.SvdSolver.Rows.{set_function, functions_of, rows_at, fill_components}
use tpc_api.Analytics.SvdSolver.{
  measurement_concept, Eigen, fill_component, fill_measurement, solve_svd,
}

module _ {ℓ} {W : Type ℓ} where
  -- The three rows and values of one measurement.
  fill_measurement-rows :
      (f g h : ℕ → W → W → W → W) (modes index : ℕ) (p v : Array3 W) (u w : W)
      (done rest : List (List W)) (vdone vrest : List W)
      → 3 * index ≡ length done
      → length vdone ≡ length done
      → loop 3 0
          (fill_component (functions_of (f ∷ g ∷ h ∷ [])) modes 3 index (span p) (span v))
          (record {
            matrix = done ++ (replicate modes u ∷ replicate modes u ∷ replicate modes u ∷ rest);
            values = vdone ++ (w ∷ w ∷ w ∷ vrest);
          })
        ≡ returned (record {
          matrix = done ++ (rows_at (f ∷ g ∷ h ∷ []) modes p ++ rest);
          values = vdone ++ (span v ++ vrest);
        })
  fill_measurement-rows f g h modes index (a, b, c) (x, y, z) u w done rest vdone vrest at vat =
      fill_components (f ∷ g ∷ h ∷ []) (x ∷ y ∷ z ∷ []) [] _ [] (x ∷ y ∷ z ∷ []) modes 3 index a b c
        u w done rest vdone vrest refl refl refl refl (omega (arith, at)) vat

  abbrev point : Measurement W → Array3 W
  point m = m.point_components.components

  abbrev field : Measurement W → Array3 W
  field m = m.field_components.components

  -- The matrix row by row, and the right-hand side.
  abbrev pub design : List (ℕ → W → W → W → W) → ℕ → List (Measurement W) → List (List W)
  design fs modes [] = []
  design fs modes (m ∷ ms) = rows_at fs modes (point m) ++ design fs modes ms

  abbrev pub field_values : List (Measurement W) → List W
  field_values [] = []
  field_values (m ∷ ms) = span (field m) ++ field_values ms

  module _ (f g h : ℕ → W → W → W → W) (modes : ℕ) (u w : W) where
    abbrev functions : List (Function W)
    functions = set_function f ∷ set_function g ∷ set_function h ∷ []

    fill_measurements :
        (prev ms all : List (Measurement W)) (k : ℕ) (done : List (List W)) (vdone : List W)
        → all ≡ prev ++ ms
        → k ≡ length ms * 3
        → 3 * length prev ≡ length done
        → length vdone ≡ length done
        → loop (length ms) (length prev) (fill_measurement functions modes 3 all) (record {
          matrix = done ++ replicate k (replicate modes u);
          values = vdone ++ replicate k w;
        })
          ≡ returned (record {
            matrix = done ++ design (f ∷ g ∷ h ∷ []) modes ms;
            values = vdone ++ field_values ms;
          })
    unfolding loop fill_measurement
    fill_measurements prev [] all zero done vdone e ek at vat = refl
    fill_measurements prev [] all (suc k) done vdone e ek at vat = absurd (omega arith)
    fill_measurements prev (m ∷ ms) all zero done vdone e ek at vat = absurd (omega arith)
    fill_measurements prev (m ∷ ms) all (suc zero) done vdone e ek at vat = absurd (omega arith)
    fill_measurements prev (m ∷ ms) all (suc (suc zero)) done vdone e ek at vat =
        absurd (omega arith)
    fill_measurements prev (m ∷ ms) all (suc (suc (suc k))) done vdone e ek at vat =
        let here : get_elem? all (length prev) ≡ some m = rw e (get_elem?-append prev m ms) in
        let rows = rows_at (f ∷ g ∷ h ∷ []) modes (point m) in
        let vs = span (field m) in
        let blank = replicate k (replicate modes u) in
        let filled =
          fill_measurement-rows f g h modes (length prev) (point m) (field m) u w done blank vdone
            (replicate k w) at vat in
        let rest =
          fill_measurements (prev ++ (m ∷ [])) ms all k (done ++ rows) (vdone ++ vs)
            (e ∙ sym (snoc-append prev m ms)) (omega arith)
            (omega (arith, at, length-snoc prev m, length-append done rows))
            (omega (arith, vat, length-append done rows, length-append vdone vs)) in
        rw (here, filled)
          (rw
            (
              length-snoc prev m,
              append_assoc done rows blank,
              append_assoc vdone vs (replicate k w),
              append_assoc done rows (design (f ∷ g ∷ h ∷ []) modes ms),
              append_assoc vdone vs (field_values ms),
            )
            at rest)

module _ {ℓ} {W : Type ℓ} ⦃d : Double W⦄ where
  -- With three functions set, some measurements, some modes, a threshold that is not negative and
  -- sizes within Eigen's indices, the solver hands to Eigen the whole design matrix: for each
  -- measurement and component the row of that component's function at every mode and at the point;
  -- and the field values in the same order. No cell keeps what the matrix was created with.
  pub solve_svd_lem :
      (eigen : Eigen W) (f g h : ℕ → W → W → W → W) (m : Measurement W) (ms : List (Measurement W))
      (modes : ℕ) (threshold : W)
      → 0 < modes
      → modes ≤ index_max
      → length (m ∷ ms) ≤ index_max / 3
      → d.lt threshold nought ≡ false
      → solve_svd eigen
          (m ∷ ms)
          (set_function f ∷ set_function g ∷ set_function h ∷ [])
          modes
          threshold
        ≡ returned (
            eigen.solve
              (length (m ∷ ms) * 3)
              modes
              (design (f ∷ g ∷ h ∷ []) modes (m ∷ ms))
              threshold
              (field_values (m ∷ ms)))
  unfolding solve_svd
  solve_svd_lem eigen f g h m ms modes threshold some_modes few_modes few positive =
      let a : (modes == 0) ≡ false = ground arith in
      let b : ltb index_max modes ≡ false = ground arith in
      let c : ltb (index_max / 3) (length (m ∷ ms)) ≡ false = ground arith in
      rw (
        a,
        positive,
        c,
        b,
        fill_measurements f g h modes eigen.unset eigen.unset [] (m ∷ ms) (m ∷ ms)
            (length (m ∷ ms) * 3) [] [] refl refl refl refl,
      )
