-- ===== src/Analytics/Basis/Bounded.antt =====
-- A basis never holds more functions than its arity.
use tpc_api.Prelude.{
  suc, ◌-◌, ◌≤◌, ◌<◌, ◌≡◌, refl, sym, subst, inl, inr, true, false, List, [], ◌∷◌, ◌++◌, arith, leb,
  Bool-cases, length, take, length-append, length-snoc, snoc-append, take-nil,
}
use mathlib.Core.List.{append-nil}
use tpc_api.Analytics.Basis.{Function, BasisCollection, add_back}

pub record IsBasis {ℓ} {W : Type ℓ} (b : BasisCollection W) : Type 0 where
  pub some_arity : 0 < b.arity
  pub some_modes : 0 < b.modes
  pub bounded : length b.basis ≤ b.arity

module _ {ℓ} {W : Type ℓ} where
  -- Functions added one after the other, refusals ignored, as `create_default_basis` does.
  abbrev pub add_all : BasisCollection W → List (Function W) → BasisCollection W
  add_all b [] = b
  add_all b (f ∷ fs) = add_all (add_back b f).0 fs

  add_back-IsBasis : (b : BasisCollection W) (f : Function W) → IsBasis b → IsBasis (add_back b f).0
  unfolding add_back
  add_back-IsBasis b f v = ground (arith, length-append b.basis (f ∷ []))

  -- `c` is `b` with as many of the functions as its arity leaves room for.
  abbrev pub IsFilled : BasisCollection W → List (Function W) → BasisCollection W → Type ℓ
  IsFilled b fs c =
      (c.basis ≡ b.basis ++ take (b.arity - length b.basis) fs)
      × (c.arity ≡ b.arity)
      × (c.modes ≡ b.modes)
      × IsBasis c

  abbrev pushed : BasisCollection W → Function W → BasisCollection W
  pushed b f = record b { basis = b.basis ++ (f ∷ []) }

  add_back-full :
      (b : BasisCollection W) (f : Function W)
      → leb b.arity (length b.basis) ≡ true
      → (add_back b f).0 ≡ b
  unfolding add_back
  add_back-full b f e = rw e

  add_back-room :
      (b : BasisCollection W) (f : Function W)
      → leb b.arity (length b.basis) ≡ false
      → (add_back b f).0 ≡ pushed b f
  unfolding add_back
  add_back-room b f e = rw e

  -- Functions added one after the other fill the collection up to its arity, in the order of the
  -- calls, and those beyond are refused; arity and modes stay. It never holds more than its arity.
  pub add_all-basis :
      (b : BasisCollection W) (fs : List (Function W)) → IsBasis b → IsFilled b fs (add_all b fs)
  add_all-basis b [] v = (
    rw (take-nil {A = Function W} (b.arity - length b.basis)) (sym (append-nil b.basis)),
    refl,
    refl,
    v,
  )
  add_all-basis b (f ∷ fs) v = elim (Bool-cases (leb b.arity (length b.basis))) [
    | inl full ↦
        let none_left : b.arity - length b.basis ≡ 0 = ground arith in
        let (basis, arity, modes, kept) = add_all-basis b fs v in
        subst (λ c. IsFilled b (f ∷ fs) (add_all c fs)) (sym (add_back-full b f full))
          (rw none_left (rw none_left at basis, arity, modes, kept))
    | inr room ↦
        let left : b.arity - length b.basis ≡ suc (b.arity - suc (length b.basis)) = ground arith in
        let (basis, arity, modes, kept) =
          add_all-basis (pushed b f) fs (rw (add_back-room b f room) at (add_back-IsBasis b f v)) in
        subst (λ c. IsFilled b (f ∷ fs) (add_all c fs)) (sym (add_back-room b f room))
          (rw left (rw (length-snoc b.basis f, snoc-append b.basis f) at basis, arity, modes, kept))
  ]
