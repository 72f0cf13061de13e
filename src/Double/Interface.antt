-- ===== src/Double/Interface.antt =====
-- What the code does with a `double`: literals, arithmetic, comparisons and the functions of
-- <cmath>. The floating-point unit and the mathematical library are no code of the repository, so
-- they are an interface; a law that a theorem needs is a hypothesis of that theorem.
use tpc_api.Prelude.{ℕ, Bool, if◌then◌else◌}

pub record Double {ℓ} (W : Type ℓ) : Type ℓ where
  -- the literal m * 10 ^ (-e)
  pub decimal : ℕ → ℕ → W
  -- `static_cast<double>` of a `std::size_t`
  pub of_size : ℕ → W
  pub add : W → W → W
  pub sub : W → W → W
  pub mul : W → W → W
  pub div : W → W → W
  pub neg : W → W
  pub lt : W → W → Bool
  pub le : W → W → Bool
  pub abs : W → W
  pub sqrt : W → W
  pub hypot : W → W → W
  pub atan2 : W → W → W
  pub cos : W → W
  pub sin : W → W
  -- `std::numeric_limits<double>::epsilon()` and `std::numbers::pi`
  pub epsilon : W
  pub pi : W

infixl 65 ◌⊕◌ ◌⊖◌
infixl 70 ◌⊗◌ ◌⊘◌
abbrev pub ◌⊕◌ {ℓ} : {W : Type ℓ} ⦃d : Double W⦄ → W → W → W
◌⊕◌ ⦃d⦄ = d.add

abbrev pub ◌⊖◌ {ℓ} : {W : Type ℓ} ⦃d : Double W⦄ → W → W → W
◌⊖◌ ⦃d⦄ = d.sub

abbrev pub ◌⊗◌ {ℓ} : {W : Type ℓ} ⦃d : Double W⦄ → W → W → W
◌⊗◌ ⦃d⦄ = d.mul

abbrev pub ◌⊘◌ {ℓ} : {W : Type ℓ} ⦃d : Double W⦄ → W → W → W
◌⊘◌ ⦃d⦄ = d.div

-- The literal 0.0, which also is what `double{}` and `resize` write.
abbrev pub nought {ℓ} : {W : Type ℓ} ⦃d : Double W⦄ → W
nought ⦃d⦄ = d.decimal 0 0

-- `std::max(a, b)`: `a` unless it is less than `b`.
abbrev pub max {ℓ} : {W : Type ℓ} ⦃d : Double W⦄ → W → W → W
max ⦃d⦄ a b = if d.lt a b then b else a
