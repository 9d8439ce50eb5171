-- ===== src/Double.antt =====
-- The type `double`, with what the simulation does with prices and cash. Its arithmetic rounds and
-- is not code of the repository, so it is a parameter: a carrier, constants, tests and operations.
pub mod Cents
use stock_market_trading_sim.Common.{
  ℕ, ◌+◌, ◌*◌, ◌/◌, ◌≡◌, refl, ◌⊎◌, inl, inr, Bool, true, false, not, arith, if◌then◌else◌,
}
use stock_market_trading_sim.Common.Int.{ℤ, pos, negsuc, ltb_ℤ, ◌+ℤ◌, ◌-ℤ◌, ◌*ℤ◌}

pub record Double (P : Type 0) : Type 0 where
  pub neg_inf : P
  pub pos_inf : P
  -- the decimal constant a / b
  pub ratio : ℕ → ℕ → P
  -- `static_cast<double>`
  pub of_ℤ : ℤ → P
  pub lt : P → P → Bool
  pub le : P → P → Bool
  pub add : P → P → P
  pub sub : P → P → P
  pub mul : P → P → P
  pub div : P → P → P

-- IEEE 754 comparisons. Of the order nothing is said where a NaN takes part but that `<` is
-- irreflexive and transitive (a comparison with NaN is false).
pub record IsOrdered (P : Type 0) ⦃d : Double P⦄ : Type 0 where
  pub lt_irrefl : (x : P) → d.lt x x ≡ false
  pub lt_trans : (x y z : P) → d.lt x y ≡ true → d.lt y z ≡ true → d.lt x z ≡ true
