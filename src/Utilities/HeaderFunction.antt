-- ===== src/Utilities/HeaderFunction.antt =====
-- include/tpc/utilities/header_function.hpp: `header_function<R(Header, BodyArgs...)>` at three body
-- arguments of one type, the one way in which the program uses it.
mod Tests
use tpc_api.Prelude.{
  ℕ, ◌≡◌, refl, ◌≢◌, ◌⊎◌, inl, inr, Bool, true, false, Option, none, some, List, [], ◌∷◌, arith,
  ◌==◌, if◌then◌else◌, length, Exception, std_exception, Outcome, returned, thrown,
}

pub record HeaderFunction {ℓ κ ρ} (R : Type ℓ) (Header : Type κ) (B : Type ρ)
    : Type (ℓ ⊔ κ ⊔ ρ) where
  -- `std::function`; `none` is an empty one
  pub function : Option (Header → B → B → B → R)

abbrev pub body_size : ℕ
body_size = 3

abbrev pub bad_function_call : Exception
bad_function_call = std_exception "bad_function_call"

module _ {ℓ κ ρ} {R : Type ℓ} {Header : Type κ} {B : Type ρ} where
  -- `explicit operator bool`
  pub is_set : HeaderFunction R Header B → Bool
  is_set f = elim f.function [ none ↦ false | some _ ↦ true ]

  -- `operator()`
  unfoldable pub invoke : HeaderFunction R Header B → Header → B → B → B → Outcome R
  invoke f header a b c = elim f.function [
    | none ↦ thrown bad_function_call
    | some function ↦ returned (function header a b c)
  ]

  -- `function_(header, body_values[0], body_values[1], body_values[2])`, where the span is known to
  -- have three elements; the last clause is never reached.
  invoke_impl : HeaderFunction R Header B → Header → List B → Outcome R
  unfolding invoke
  invoke_impl f header (a ∷ b ∷ c ∷ rest) = invoke f header a b c
  invoke_impl f header _ = thrown bad_function_call

  unfoldable pub invoke_from_span : HeaderFunction R Header B → Header → List B → Outcome R
  unfolding invoke_impl
  invoke_from_span f header body_values =
      if length body_values == body_size
      then invoke_impl f header body_values
      else thrown (std_exception "The array size does not match the number of body parameters!")

  pub invoke_from_span-triple :
      (f : Header → B → B → B → R) (header : Header) (a b c : B)
      → invoke_from_span (record { function = some f }) header (a ∷ b ∷ c ∷ [])
        ≡ returned (f header a b c)
  unfolding invoke_from_span
  invoke_from_span-triple f header a b c = refl

  -- A span of any length: three values are passed on to the call operator, and every other length
  -- is refused with the same exception, whether the function is set or not.
  pub invoke_from_span_lem :
      (f : HeaderFunction R Header B) (header : Header) (values : List B)
      → ((a b c : B) × (values ≡ a ∷ b ∷ c ∷ [])
          × (invoke_from_span f header values ≡ invoke f header a b c))
        ⊎ ((length values ≢ body_size)
            × (invoke_from_span f header values
                ≡ thrown
                    (std_exception "The array size does not match the number of body parameters!")))
  unfolding invoke_from_span
  invoke_from_span_lem f header (a ∷ b ∷ c ∷ []) = inl (a, b, c, refl, refl)
  invoke_from_span_lem f header [] = inr (omega arith, refl)
  invoke_from_span_lem f header (a ∷ []) = inr (omega arith, refl)
  invoke_from_span_lem f header (a ∷ b ∷ []) = inr (omega arith, refl)
  invoke_from_span_lem f header (a ∷ b ∷ c ∷ d ∷ rest) = inr (omega arith, ground arith)
