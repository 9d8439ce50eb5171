-- ===== src/Double/Cents.antt =====
-- A value of the interface: whole cents, with the two infinities and a NaN. It shows that the laws
-- can be met, and it is what the tests and the instances of theorems compute with.
use stock_market_trading_sim.Common.{suc, ◌*◌, ◌/◌, ◌≡◌, refl, Bool, true, false, arith}
use stock_market_trading_sim.Common.Int.{
  ℤ, pos, negsuc, ltb_ℤ, leb_ℤ, ◌+ℤ◌, ◌-ℤ◌, ◌*ℤ◌, sub_ℕ, pos_part, neg_part,
}
use stock_market_trading_sim.Double.{Double, IsOrdered}

pub data Cents : Type 0 where
  nan : Cents
  low : Cents
  num : ℤ → Cents
  high : Cents

abbrev pub lt_cents : Cents → Cents → Bool
lt_cents nan y = false
lt_cents low nan = false
lt_cents low low = false
lt_cents low _ = true
lt_cents (num a) (num b) = ltb_ℤ a b
lt_cents (num a) high = true
lt_cents (num a) _ = false
lt_cents high y = false

abbrev pub le_cents : Cents → Cents → Bool
le_cents nan y = false
le_cents low nan = false
le_cents low _ = true
le_cents (num a) (num b) = leb_ℤ a b
le_cents (num a) high = true
le_cents (num a) _ = false
le_cents high high = true
le_cents high _ = false

-- An operation on numbers; all else is NaN.
abbrev pub on_numbers : (ℤ → ℤ → ℤ) → Cents → Cents → Cents
on_numbers f (num a) (num b) = num (f a b)
on_numbers f _ _ = nan

-- Division by a positive or negative `n + 1`, towards zero.
abbrev pub hundredth : ℤ → ℤ
hundredth a = sub_ℕ (pos_part a / 100) (neg_part a / 100)

abbrev pub quotient : ℤ → ℤ → ℤ
quotient a (pos n) = sub_ℕ (pos_part a * 100 / n) (neg_part a * 100 / n)
quotient a (negsuc n) = sub_ℕ (neg_part a * 100 / suc n) (pos_part a * 100 / suc n)

instance abbrev pub cents_double : Double Cents
cents_double = record {
  neg_inf = low;
  pos_inf = high;
  ratio = λ a b. num (pos (a * 100 / b));
  of_ℤ = λ a. num (a *ℤ pos 100);
  lt = lt_cents;
  le = le_cents;
  add = on_numbers ◌+ℤ◌;
  sub = on_numbers ◌-ℤ◌;
  mul = on_numbers λ a b. hundredth (a *ℤ b);
  div = on_numbers quotient;
}

lt_cents_irrefl : (x : Cents) → lt_cents x x ≡ false
lt_cents_irrefl nan = refl
lt_cents_irrefl low = refl
lt_cents_irrefl (num a) = ground arith
lt_cents_irrefl high = refl

lt_cents_trans : (x y z : Cents) → lt_cents x y ≡ true → lt_cents y z ≡ true → lt_cents x z ≡ true
lt_cents_trans (num a) (num b) (num c) h k = ground arith
lt_cents_trans x y z h k = ground arith

pub Cents-IsOrdered : IsOrdered Cents
Cents-IsOrdered = record { lt_irrefl = lt_cents_irrefl; lt_trans = lt_cents_trans }
