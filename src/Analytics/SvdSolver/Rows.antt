-- ===== src/Analytics/SvdSolver/Rows.antt =====
-- include/tpc/analytics/svd/svd_solver.hpp: how `solve_svd` fills the rows of one measurement.

use tpc_api.Prelude.{
  ℕ, zero, suc, ◌+◌, ◌*◌, ◌≡◌, refl, sym, ◌∙◌, subst, some, List, [], ◌∷◌, ◌++◌, arith, length,
  get_elem?, set, replicate, length-replicate, returned, get_elem?-append, get_or-append,
  set-append, length-snoc, snoc-append, loop,
}
use tpc_api.Utilities.HeaderFunction
use tpc_api.Utilities.HeaderFunction.{HeaderFunction}
use tpc_api.Analytics.Models.{Array3}
use tpc_api.Analytics.Basis.{Function}
use tpc_api.Analytics.SvdSolver.{
  measurement_concept, write_cell, write_value, fill_mode, fill_component,
}

-- g first, g (first + 1), …: so many values.
abbrev evaluations {ℓ} : {W : Type ℓ} → (ℕ → W) → ℕ → ℕ → List W
evaluations g zero first = []
evaluations g (suc n) first = g first ∷ evaluations g n (suc first)

abbrev pub set_function {ℓ} : {W : Type ℓ} → (ℕ → W → W → W → W) → Function W
set_function f = record { function = some f }

module _ {ℓ} {W : Type ℓ} where
  -- A row is filled from left to right: `pre` is written, `post` is not.
  fill_modes :
      (basis : List (Function W)) (modes dim component : ℕ) (f : ℕ → W → W → W → W) (a b c : W)
      (done rest : List (List W)) (vs : List W) (pre post : List W)
      → get_elem? basis component ≡ some (set_function f)
      → loop
          (length post)
          (length pre)
          (fill_mode basis modes dim component (length done) (a ∷ b ∷ c ∷ []))
          (record { matrix = done ++ ((pre ++ post) ∷ rest); values = vs })
        ≡ returned (record {
          matrix =
              done ++ ((pre ++ evaluations (λ k. f k a b c) (length post) (length pre)) ∷ rest);
          values = vs;
        })
  unfolding loop fill_mode write_cell
  fill_modes basis modes dim component f a b c done rest vs pre [] e = refl
  fill_modes basis modes dim component f a b c done rest vs pre (x ∷ post) e =
      let v = f (length pre) a b c in
      let ih = fill_modes basis modes dim component f a b c done rest vs (pre ++ (v ∷ [])) post e in
      rw
        (
          e,
          HeaderFunction.invoke_from_span-triple f (length pre) a b c,
          get_or-append done (pre ++ (x ∷ post)) rest [],
          set-append pre x post v,
          set-append done (pre ++ (x ∷ post)) rest (pre ++ (v ∷ post)),
        )
        (rw (length-snoc pre v, snoc-append pre v post, snoc-append pre v) at ih)

  -- One row of the matrix and one value: the row at `length done` was not yet written.
  fill_component-row :
      (basis : List (Function W)) (modes dim index component : ℕ) (f : ℕ → W → W → W → W)
      (a b c v w : W) (values : List W) (done rest : List (List W)) (row : List W)
      (vdone vrest : List W)
      → get_elem? basis component ≡ some (set_function f)
      → get_elem? values component ≡ some v
      → length row ≡ modes
      → dim * index + component ≡ length done
      → length vdone ≡ length done
      → fill_component basis modes dim index
          (a ∷ b ∷ c ∷ [])
          values
          component
          (record { matrix = done ++ (row ∷ rest); values = vdone ++ (w ∷ vrest) })
        ≡ returned (record {
          matrix = done ++ (evaluations (λ k. f k a b c) modes 0 ∷ rest);
          values = vdone ++ (v ∷ vrest);
        })
  unfolding fill_component write_value
  fill_component-row basis modes dim index component f a b c v w values done rest row vdone vrest e
        ev sized at vat =
      rw
        (
          ev,
          at,
          subst (λ k. set (vdone ++ (w ∷ vrest)) k v ≡ vdone ++ (v ∷ vrest)) vat
              (set-append vdone w vrest v),
          ← sized,
        )
        (fill_modes basis (length row) dim component f a b c done rest (vdone ++ (v ∷ vrest)) [] row
          e)

  abbrev pub functions_of : List (ℕ → W → W → W → W) → List (Function W)
  functions_of [] = []
  functions_of (f ∷ fs) = set_function f ∷ functions_of fs

  abbrev pub rows_at : List (ℕ → W → W → W → W) → ℕ → Array3 W → List (List W)
  rows_at [] modes p = []
  rows_at (f ∷ fs) modes (a, b, c) =
      evaluations (λ k. f k a b c) modes 0 ∷ rows_at fs modes (a, b, c)

  -- The rows and values of the functions from `length pre` on.
  pub fill_components :
      (fs : List (ℕ → W → W → W → W)) (vs : List W) (pre basis : List (Function W))
      (vpre values : List W) (modes dim index : ℕ) (a b c u w : W) (done rest : List (List W))
      (vdone vrest : List W)
      → basis ≡ pre ++ functions_of fs
      → values ≡ vpre ++ vs
      → length vpre ≡ length pre
      → length vs ≡ length fs
      → dim * index + length pre ≡ length done
      → length vdone ≡ length done
      → loop
          (length fs)
          (length pre)
          (fill_component basis modes dim index (a ∷ b ∷ c ∷ []) values)
          (record {
            matrix = done ++ (replicate (length fs) (replicate modes u) ++ rest);
            values = vdone ++ (replicate (length fs) w ++ vrest);
          })
        ≡ returned (record {
          matrix = done ++ (rows_at fs modes (a, b, c) ++ rest);
          values = vdone ++ (vs ++ vrest);
        })
  unfolding loop
  fill_components [] [] pre basis vpre values modes dim index a b c u w done rest vdone vrest e ev
        same sized at vat =
      refl
  fill_components [] (v ∷ vs) pre basis vpre values modes dim index a b c u w done rest vdone vrest
        e ev same sized at vat =
      absurd (omega arith)
  fill_components (f ∷ fs) [] pre basis vpre values modes dim index a b c u w done rest vdone vrest
        e ev same sized at vat =
      absurd (omega arith)
  fill_components (f ∷ fs) (v ∷ vs) pre basis vpre values modes dim index a b c u w done rest vdone
        vrest e ev same sized at vat =
      let row = evaluations (λ k. f k a b c) modes 0 in
      let blank = replicate (length fs) (replicate modes u) in
      let blanks = replicate (length fs) w in
      let its_function : get_elem? basis (length pre) ≡ some (set_function f) =
        rw e (get_elem?-append pre (set_function f) (functions_of fs)) in
      let its_value : get_elem? values (length pre) ≡ some v =
        rw (ev, ← same) (get_elem?-append vpre v vs) in
      let filled =
        fill_component-row basis modes dim index (length pre) f a b c v w values done
          (blank ++ rest) (replicate modes u) vdone (blanks ++ vrest) its_function its_value
          (length-replicate modes u) at vat in
      let others =
        fill_components fs vs (pre ++ (set_function f ∷ [])) basis (vpre ++ (v ∷ [])) values modes
          dim index a b c u w (done ++ (row ∷ [])) rest (vdone ++ (v ∷ [])) vrest
          (e ∙ sym (snoc-append pre (set_function f) (functions_of fs)))
          (ev ∙ sym (snoc-append vpre v vs))
          (omega (arith, length-snoc vpre v, length-snoc pre (set_function f))) (omega arith)
          (omega (arith, length-snoc done row, length-snoc pre (set_function f)))
          (omega (arith, length-snoc done row, length-snoc vdone v)) in
      rw filled (
        rw
          (
            length-snoc pre (set_function f),
            snoc-append done row (blank ++ rest),
            snoc-append done row (rows_at fs modes (a, b, c) ++ rest),
            snoc-append vdone v (blanks ++ vrest),
            snoc-append vdone v (vs ++ vrest),
          )
          at others)
