-- ===== src/Prelude/Results.antt =====
-- `std::expected<T, std::string>`, and the computations that may throw.
use Prim.Native.String.{String}
use mathlib.Core.Path.{◌≡◌, refl}
use mathlib.Core.Bool.{Bool, true, false}
use mathlib.Core.Option.{Option, none, some}

-- `std::expected<A, std::string>`; a `void` value is `tt`.
pub data Expected {ℓ} (A : Type ℓ) : Type ℓ where
  expected : A → Expected A
  unexpected : String → Expected A

-- What a C++ function may throw: a `std::exception` with its `what()`, or any other object.
pub data Exception : Type 0 where
  std_exception : String → Exception
  other : Exception

-- The outcome of a call that may throw. `failed e` returns `std::unexpected{e}`; `undefined` is
-- undefined behaviour, or a loop that goes on after its fuel.
pub data Outcome {ℓ} (A : Type ℓ) : Type ℓ where
  returned : A → Outcome A
  failed : String → Outcome A
  thrown : Exception → Outcome A
  undefined : Outcome A

infixl 5 ◌>>=◌ ◌>>◌
abbrev pub ◌>>=◌ {ℓ κ} : {A : Type ℓ} {B : Type κ} → Outcome A → (A → Outcome B) → Outcome B
returned a >>= f = f a
failed e >>= f = failed e
thrown x >>= f = thrown x
undefined >>= f = undefined

abbrev pub ◌>>◌ {ℓ} : {B : Type ℓ} → Outcome (Unit {0}) → Outcome B → Outcome B
m >> k = m >>= λ _. k

-- `if (test) return std::unexpected{message};`
abbrev pub fail_if : Bool → String → Outcome (Unit {0})
fail_if true message = failed message
fail_if false message = returned tt

-- A call of a function that returns `std::expected`, whose error is passed on.
abbrev pub lift {ℓ} : {A : Type ℓ} → Expected A → Outcome A
lift (expected a) = returned a
lift (unexpected e) = failed e

-- An access that has to lie within its range.
abbrev pub in_range {ℓ} : {A : Type ℓ} → Option A → Outcome A
in_range none = undefined
in_range (some a) = returned a

-- A call on the state `S` of the program: it leaves a new state, and may throw.
abbrev pub Effect {ℓ} : Type ℓ → Type ℓ
Effect S = S → S × Option Exception

-- `first(); rest();`: what `first` throws leaves at once.
abbrev pub before {ℓ} : {S : Type ℓ} → S × Option Exception → Effect S → S × Option Exception
before (s, none) rest = rest s
before (s, some e) rest = (s, some e)

-- An early return: what is left of a method runs only if the call returned, on the state given.
abbrev pub attempt {ℓ κ ρ} :
    {S : Type ℓ} {A : Type κ} {B : Type ρ} → S → Outcome A → (A → S × Outcome B) → S × Outcome B
attempt s (returned a) rest = rest a
attempt s (failed e) rest = (s, failed e)
attempt s (thrown x) rest = (s, thrown x)
attempt s undefined rest = (s, undefined)

-- A call with early returns, by the outcome of its first part.
pub attempt_cases {ℓ κ ρ σ} :
    {S : Type ℓ} {A : Type κ} {B : Type ρ} (P : S × Outcome B → Type σ) (s : S) (o : Outcome A)
    (rest : A → S × Outcome B)
    → ((e : String) → P (s, failed e))
    → ((x : Exception) → P (s, thrown x))
    → P (s, undefined)
    → ((a : A) → o ≡ returned a → P (rest a))
    → P (attempt s o rest)
attempt_cases P s (returned a) rest f t u r = r a refl
attempt_cases P s (failed e) rest f t u r = f e
attempt_cases P s (thrown x) rest f t u r = t x
attempt_cases P s undefined rest f t u r = u
