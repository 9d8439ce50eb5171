-- ===== src/Common/Keys.antt =====
-- Keys of the maps: a type whose values can be compared, with the law of the comparison. Ids are
-- numbers and symbols are texts.
use Prim.Native.Nat.{ℕ}
use Prim.Native.String.{String}
use text.Mathlib.Text.{◌==◌ as equal_texts}
use text.Mathlib.TextEquality.{eq_iff}
use mathlib.Core.Bool.{Bool, true}
use mathlib.Core.Logic.{◌↔◌}
use mathlib.Core.Path.{◌≡◌}
use stock_market_trading_sim.Common.Tests.{eqb, eqb_iff}

pub record Key {ℓ} (K : Type ℓ) : Type ℓ where
  pub same : K → K → Bool
  pub same_iff : (j k : K) → (same j k ≡ true) ↔ (j ≡ k)

instance abbrev pub symbol_key : Key String
symbol_key = record { same = equal_texts; same_iff = eq_iff }

instance abbrev pub id_key : Key ℕ
id_key = record { same = eqb; same_iff = eqb_iff }

infix 50 ◌==◌
abbrev pub ◌==◌ {ℓ} : {K : Type ℓ} ⦃key : Key K⦄ → K → K → Bool
◌==◌ ⦃key⦄ j k = key.same j k
