-- ===== src/Analytics/Modes.antt =====
-- include/tpc/analytics/analytics_manager/analytics_manager.hpp: the double loop over modes and
-- components that `evaluate_for_point`, `evaluate_field_slice` and `calculate_field_kernel` each
-- write out, `components[i] += coefficient * basis[i](mode, r, phi, z)`.
pub mod Weighted
use tpc_api.Double.{Double, ◌⊕◌, ◌⊗◌, nought}
use tpc_api.Prelude.{ℕ, List, get_elem?, ◌>>=◌, Outcome, returned, in_range, loop}
use tpc_api.Utilities.HeaderFunction
use tpc_api.Analytics.Models.{Array3}
use tpc_api.Analytics.Basis.{Function}

module _ {ℓ} {W : Type ℓ} ⦃d : Double W⦄ (basis : List (Function W)) (coefficients : List W)
    (p : Array3 W) where
  -- `basis[component](mode, r, phi, z)`
  basis_value : ℕ → ℕ → Outcome W
  basis_value component mode = do
    function ← in_range (get_elem? basis component)
    HeaderFunction.invoke function mode p.0 p.1 p.2

  -- One round of the outer loop; the inner one has kDimension = 3 rounds.
  add_mode : ℕ → Array3 W → Outcome (Array3 W)
  unfolding basis_value
  add_mode mode sums = do
    coefficient ← in_range (get_elem? coefficients mode)
    first ← basis_value 0 mode
    second ← basis_value 1 mode
    third ← basis_value 2 mode
    returned (
      sums.0 ⊕ (coefficient ⊗ first),
      sums.1 ⊕ (coefficient ⊗ second),
      sums.2 ⊕ (coefficient ⊗ third),
    )

  unfoldable pub components_at : ℕ → Outcome (Array3 W)
  unfolding add_mode loop HeaderFunction.invoke
  components_at modes = loop modes 0 add_mode (nought, nought, nought)
