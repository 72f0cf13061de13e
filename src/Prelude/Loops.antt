-- ===== src/Prelude/Loops.antt =====
-- Counted loops whose body may leave with an error.
use Prim.Native.Nat.{ℕ, zero, suc, ◌+◌}
use mathlib.Core.Path.{◌≡◌, refl, subst}
use native.Mathlib.Omega.{arith}
use tpc_api.Prelude.Results.{Outcome, returned, ◌>>=◌}

-- `for (i = first; i < first + rounds; ++i) state = body(i, state);`
unfoldable pub loop {ℓ} : {S : Type ℓ} → ℕ → ℕ → (ℕ → S → Outcome S) → S → Outcome S
loop zero i body s = returned s
loop (suc rounds) i body s = body i s >>= loop rounds (suc i) body

-- If each round takes the invariant's state on to the next one, so does the loop.
pub loop-returned {ℓ} :
    {S : Type ℓ} (body : ℕ → S → Outcome S) (at : ℕ → S)
    → ((i : ℕ) → body i (at i) ≡ returned (at (suc i)))
    → (rounds i : ℕ) → loop rounds i body (at i) ≡ returned (at (i + rounds))
unfolding loop
loop-returned body at keep zero i =
    subst (λ k. returned (at i) ≡ returned (at k)) (omega arith) refl
loop-returned body at keep (suc rounds) i =
    let e : suc i + rounds ≡ i + suc rounds = omega arith in
    rw (keep i) (
      subst (λ k. loop rounds (suc i) body (at (suc i)) ≡ returned (at k)) e
        (loop-returned body at keep rounds (suc i)))
