-- ===== src/Prelude/Defined.antt =====
-- Computations without undefined behaviour, and loops whose rounds have none.
use Prim.Native.Nat.{ℕ, zero, suc, ◌+◌, ◌-◌, ◌≤◌, ◌<◌}
use Prim.Native.String.{String}
use mathlib.Core.Path.{◌≡◌, refl}
use mathlib.Core.Bool.{Bool, true, false}
use mathlib.Core.Logic.{inl, inr}
use mathlib.Core.Option.{some}
use mathlib.Core.List.{List, [], ◌∷◌}
use native.Mathlib.Omega.{arith}
use tpc_api.Prelude.Tests.{ltb, if◌then◌else◌, Bool-cases}
use tpc_api.Prelude.Lists.{length, get_elem?}
use tpc_api.Prelude.Results.{
  std_exception, other, Outcome, returned, failed, thrown, undefined, fail_if, ◌>>=◌, ◌>>◌, attempt,
}
use tpc_api.Prelude.Loops.{loop}

-- The call throws nothing and reads nothing out of range, and what it returns, if it does not end
-- with an error, has the property.
abbrev pub Ensures {ℓ κ} : {A : Type ℓ} → (A → Type κ) → Outcome A → Type κ
Ensures P (returned a) = P a
Ensures P (failed e) = Unit
Ensures P (thrown x) = ⊥ × Unit
Ensures P undefined = ⊥ × Unit

-- The call returns a value or an error.
abbrev pub IsDefined {ℓ} : {A : Type ℓ} → Outcome A → Type 0
IsDefined m = Ensures (λ _. Unit {0}) m

pub defined-Ensures {ℓ κ} :
    {A : Type ℓ} (P : A → Type κ) (m : Outcome A)
    → IsDefined m
    → ((a : A) → m ≡ returned a → P a)
    → Ensures P m
defined-Ensures P (returned a) h k = k a refl
defined-Ensures P (failed e) h k = tt
defined-Ensures P (thrown x) h k = absurd h.0
defined-Ensures P undefined h k = absurd h.0

pub Ensures-IsDefined {ℓ κ} :
    {A : Type ℓ} (P : A → Type κ) (m : Outcome A) → Ensures P m → IsDefined m
Ensures-IsDefined P (returned a) h = tt
Ensures-IsDefined P (failed e) h = tt
Ensures-IsDefined P (thrown x) h = absurd h.0
Ensures-IsDefined P undefined h = absurd h.0

pub Ensures->>= {ℓ κ ρ σ} :
    {A : Type ℓ} {B : Type κ} (Q : A → Type ρ) (P : B → Type σ) (m : Outcome A) (f : A → Outcome B)
    → Ensures Q m
    → ((a : A) → Q a → Ensures P (f a))
    → Ensures P (m >>= f)
Ensures->>= Q P (returned a) f h k = k a h
Ensures->>= Q P (failed e) f h k = tt
Ensures->>= Q P (thrown x) f h k = absurd h.0
Ensures->>= Q P undefined f h k = absurd h.0

-- What follows a guard, where the guard is passed.
pub Ensures-guard {ℓ κ} :
    {B : Type ℓ} (P : B → Type κ) (test : Bool) (message : String) (rest : Outcome B)
    → (test ≡ false → Ensures P rest)
    → Ensures P (fail_if test message >> rest)
Ensures-guard P true message rest h = tt
Ensures-guard P false message rest h = h refl

-- A call with early returns, whose first part ensures `Q`.
pub attempt-Ensures {ℓ κ ρ σ τ} :
    {S : Type ℓ} {A : Type κ} {B : Type ρ} (Q : A → Type σ) (P : S × Outcome B → Type τ) (s : S)
    (o : Outcome A) (rest : A → S × Outcome B)
    → Ensures Q o
    → ((e : String) → P (s, failed e))
    → ((a : A) → Q a → P (rest a))
    → P (attempt s o rest)
attempt-Ensures Q P s (returned a) rest h f r = r a h
attempt-Ensures Q P s (failed e) rest h f r = f e
attempt-Ensures Q P s (thrown x) rest h f r = absurd h.0
attempt-Ensures Q P s undefined rest h f r = absurd h.0

-- A task: it has a value, of which `P` is so, or a std::exception.
abbrev pub Completes {ℓ κ} : {A : Type ℓ} → (A → Type κ) → Outcome A → Type κ
Completes P (returned a) = P a
Completes P (thrown (std_exception what)) = Unit
Completes P (thrown other) = ⊥ × Unit
Completes P (failed e) = ⊥ × Unit
Completes P undefined = ⊥ × Unit

pub Completes->>= {ℓ κ ρ σ} :
    {A : Type ℓ} {B : Type κ} (Q : A → Type ρ) (P : B → Type σ) (m : Outcome A) (f : A → Outcome B)
    → Completes Q m
    → ((a : A) → Q a → Completes P (f a))
    → Completes P (m >>= f)
Completes->>= Q P (returned a) f h k = k a h
Completes->>= Q P (failed e) f h k = absurd h.0
Completes->>= Q P (thrown (std_exception what)) f h k = tt
Completes->>= Q P (thrown other) f h k = absurd h.0
Completes->>= Q P undefined f h k = absurd h.0

pub fail_if-IsDefined : (test : Bool) (message : String) → IsDefined (fail_if test message)
fail_if-IsDefined true message = tt
fail_if-IsDefined false message = tt

pub get_elem?_below {ℓ} :
    {A : Type ℓ} (xs : List A) (i : ℕ) → i < length xs → (x : A) × (get_elem? xs i ≡ some x)
get_elem?_below [] i h = absurd (omega arith)
get_elem?_below (x ∷ xs) zero h = (x, refl)
get_elem?_below (x ∷ xs) (suc i) h = get_elem?_below xs i (omega arith)

-- A loop over a range of indices in which no round has undefined behaviour.
pub loop-IsDefined {ℓ} :
    {S : Type ℓ} (rounds i : ℕ) (body : ℕ → S → Outcome S) (s : S)
    → ((j : ℕ) (t : S) → i ≤ j → j < i + rounds → IsDefined (body j t))
    → IsDefined (loop rounds i body s)
unfolding loop
loop-IsDefined zero i body s h = tt
loop-IsDefined (suc rounds) i body s h =
    Ensures->>= (λ _. Unit {0}) (λ _. Unit {0}) (body i s) (loop rounds (suc i) body)
      (h i s (omega arith) (omega arith))
      λ t e. loop-IsDefined rounds (suc i) body t λ j u p q. h j u (omega arith) (omega arith)

-- `while (i < limit && test(i)) ++i;`, which gives the final `i`.
unfoldable pub advance : ℕ → ℕ → (ℕ → Outcome Bool) → ℕ → Outcome ℕ
advance zero limit test i = undefined
advance (suc fuel) limit test i =
    if ltb i limit
    then (test i >>= λ more. elim more [
      | true ↦ advance fuel limit test (suc i)
      | false ↦ returned i
    ])
    else returned i

-- If the test has a result below the limit, the loop ends, between its start and the limit.
pub advance_bounds :
    (fuel limit : ℕ) (test : ℕ → Outcome Bool) (i : ℕ)
    → ((j : ℕ) → i ≤ j → j < limit → (b : Bool) × (test j ≡ returned b))
    → i ≤ limit
    → limit - i < fuel
    → (k : ℕ) × (advance fuel limit test i ≡ returned k) × (i ≤ k) × (k ≤ limit)
unfolding advance
advance_bounds zero limit test i answers h f = absurd (omega arith)
advance_bounds (suc fuel) limit test i answers h f = elim (Bool-cases (ltb i limit)) [
  | inl below ↦
      let (b, e) = answers i (omega arith) (ground arith) in
      elim (Bool-cases b) [
        | inl same ↦
            let (k, p, q, r) =
              advance_bounds fuel limit test (suc i) (λ j a b'. answers j (omega arith) b')
                (ground arith) (ground arith) in
            (k, rw (below, e, same) p, omega arith, r)
        | inr differs ↦ (i, rw (below, e, differs), omega arith, h)
      ]
  | inr above ↦ (i, rw above, omega arith, h)
]
