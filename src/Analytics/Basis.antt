-- ===== src/Analytics/Basis.antt =====
-- include/tpc/analytics/svd/basis.hpp: `BasisCollection`, one function for each field component.
pub mod Bounded
use tpc_api.Prelude.{
  ℕ, Bool, List, [], ◌∷◌, ◌++◌, leb, ◌==◌, if◌then◌else◌, length, Expected, expected, unexpected,
  ◌>>=◌, ◌>>◌, Outcome, returned, fail_if, is_empty,
}
use tpc_api.Utilities.HeaderFunction.{HeaderFunction}
use tpc_api.Analytics.Models.{CoordinateType}

-- `header_function<double(std::size_t, double, double, double)>`
abbrev pub Function {ℓ} : Type ℓ → Type ℓ
Function W = HeaderFunction W ℕ W

pub record BasisCollection {ℓ} (W : Type ℓ) : Type ℓ where
  pub arity : ℕ
  pub modes : ℕ
  pub basis_type : CoordinateType
  pub basis : List (Function W)

module _ {ℓ} {W : Type ℓ} where
  unfoldable pub create : ℕ → ℕ → CoordinateType → Outcome (BasisCollection W)
  create arity modes basis_type = do
    fail_if (arity == 0) "Basis arity must be greater than zero"
    fail_if (modes == 0) "Basis modes count must be greater than zero"
    returned (record { arity = arity; modes = modes; basis_type = basis_type; basis = [] })

  unfoldable pub empty : BasisCollection W → Bool
  empty b = is_empty b.basis

  unfoldable pub add_back : BasisCollection W → Function W → BasisCollection W × Expected (Unit {0})
  add_back b function =
      if leb b.arity (length b.basis)
      then (b, unexpected "Basis collection is full")
      else (record b { basis = b.basis ++ (function ∷ []) }, expected tt)
