-- ===== src/Utilities/HeaderFunction/Tests.antt =====
-- A header function at concrete inputs.
use tpc_api.Prelude.{
  ℕ, ◌+◌, ◌≡◌, refl, ◌≢◌, ◌⊎◌, none, some, List, [], ◌∷◌, length, std_exception, returned, thrown,
}
use tpc_api.Utilities.HeaderFunction.{
  HeaderFunction, body_size, bad_function_call, invoke, invoke_from_span, invoke_from_span_lem,
}

abbrev sum : HeaderFunction ℕ ℕ ℕ
sum = record { function = some (λ h a b c. h + a + b + c) }

abbrev unset : HeaderFunction ℕ ℕ ℕ
unset = record { function = none }

runs :
    (invoke_from_span sum 1 (2 ∷ 3 ∷ 4 ∷ []) ≡ returned 10)
    × (invoke_from_span unset 1 (2 ∷ 3 ∷ 4 ∷ []) ≡ thrown bad_function_call)
unfolding invoke_from_span
runs = (refl, refl)

abbrev pair : List ℕ
pair = 2 ∷ 3 ∷ []

invoke_from_span_lem_example :
    ((a b c : ℕ) × (pair ≡ a ∷ b ∷ c ∷ []) × (invoke_from_span sum 1 pair ≡ invoke sum 1 a b c))
    ⊎ ((length pair ≢ body_size)
        × (invoke_from_span sum 1 pair
            ≡ thrown
                (std_exception "The array size does not match the number of body parameters!")))
invoke_from_span_lem_example = invoke_from_span_lem sum 1 pair
