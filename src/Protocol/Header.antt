-- ===== src/Protocol/Header.antt =====
-- The header of a frame (Src_Simulation/src/net/protocol.cpp).
use stock_market_trading_sim.Common.{
  ℕ, zero, suc, ◌+◌, ◌*◌, ◌/◌, ◌%◌, ◌^◌, ◌<◌, ◌≡◌, refl, sym, ap, ◌∙◌, arith, length,
}
use native.Mathlib.Nat.{div-div-eq-div-mul, pow-suc, div-one, div-le_self}
use stock_market_trading_sim.Protocol.{encode_length, decode_length}

pub length-encode_length : (k n : ℕ) → length (encode_length k n) ≡ k
unfolding encode_length
length-encode_length zero n = refl
length-encode_length (suc k) n = ap suc (length-encode_length k n)

decoded_byte : (m n : ℕ) → m < 2 ^ 64 → n ≡ m / 256 → n * 256 % 2 ^ 64 + m % 256 ≡ m
decoded_byte m n h e = omega (arith, h, e)

byte_power : (x : ℕ) → 2 ^ suc (suc (suc (suc (suc (suc (suc (suc x))))))) ≡ 2 ^ x * 256
byte_power x = omega (
  arith,
  pow-suc 2 x,
  pow-suc 2 (x + 1),
  pow-suc 2 (x + 2),
  pow-suc 2 (x + 3),
  pow-suc 2 (x + 4),
  pow-suc 2 (x + 5),
  pow-suc 2 (x + 6),
  pow-suc 2 (x + 7),
)

eight_more : (k : ℕ) → 8 * suc k ≡ suc (suc (suc (suc (suc (suc (suc (suc (8 * k))))))))
eight_more k = omega arith

power_step : (k : ℕ) → 2 ^ (8 * suc k) ≡ 2 ^ (8 * k) * 256
power_step k = ap (λ e. 2 ^ e) (eight_more k) ∙ byte_power (8 * k)

-- One more byte of the quotient.
quotient_step : (k n : ℕ) → n / 2 ^ (8 * suc k) ≡ n / 2 ^ (8 * k) / 256
quotient_step k n = ap (λ d. n / d) (power_step k) ∙ sym (div-div-eq-div-mul n (2 ^ (8 * k)) 256)

quotient_lt : (k n : ℕ) → n < 2 ^ 64 → n / 2 ^ (8 * k) < 2 ^ 64
quotient_lt k n h = omega (arith, h, div-le_self n (2 ^ (8 * k)))

decoded_from : (k n : ℕ) → n < 2 ^ 64 → decode_length (n / 2 ^ (8 * k)) (encode_length k n) ≡ n
unfolding decode_length encode_length
decoded_from zero n h = div-one n
decoded_from (suc k) n h = rw (quotient_step k n) (
    ap (λ acc. decode_length acc (encode_length k n))
      (decoded_byte (n / 2 ^ (8 * k)) _ (quotient_lt k n h) refl)
    ∙ decoded_from k n h)

-- The header of a length is read back as that length.
pub decode_length-encode_length : (n : ℕ) → n < 2 ^ 64 → decode_length 0 (encode_length 8 n) ≡ n
decode_length-encode_length n h =
    ap (λ acc. decode_length acc (encode_length 8 n)) (omega (arith, h)) ∙ decoded_from 8 n h
