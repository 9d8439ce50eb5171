-- ===== src/Sha256/Hex.antt =====
-- `to_hex` of Src_Simulation/include/net/sha256.hpp, with a decoder of its digits.
use Prim.Native.Nat.{bit_and}
use stock_market_trading_sim.Common.{
  ℕ, zero, suc, ◌+◌, ◌-◌, ◌*◌, ◌/◌, ◌^◌, ◌≡◌, ◌<◌, refl, sym, ap, ◌∙◌, subst, List, [], ◌∷◌, length,
  arith, All, eqb, leb, if◌then◌else◌, eqb_iff,
}
use stock_market_trading_sim.Sha256.{Words, initial_words, digest, hash, hex_digit, to_hex}
use stock_market_trading_sim.Sha256.Padding.{padded, fold_blocks, reference_hash}
use stock_market_trading_sim.Sha256.Reference.{hash-reference_hash}

abbrev pub digit_value : ℕ → ℕ
digit_value c = if leb c 57 then c - 48 else c - 87

unfoldable pub from_hex : List ℕ → List ℕ
from_hex (p ∷ q ∷ digits) = (digit_value p * 16 + digit_value q) ∷ from_hex digits
from_hex _ = []

-- How many numbers under a bound a function moves.
moved : (ℕ → ℕ) → ℕ → ℕ
moved f zero = 0
moved f (suc bound) = (if eqb (f bound) bound then 0 else 1) + moved f bound

unmoved : (f : ℕ → ℕ) (bound x : ℕ) → x < bound → moved f bound ≡ 0 → f x ≡ x
unfolding moved
unmoved f zero x under none_moved = absurd (omega (arith, under))
unmoved f (suc bound) x under none_moved =
    ground (arith, unmoved f bound x, eqb_iff (f bound) bound)

abbrev decoded : ℕ → ℕ
decoded x = digit_value (hex_digit (x / 2 ^ 4)) * 16 + digit_value (hex_digit (bit_and x 0x0f))

decoded-moves-none : moved decoded 256 ≡ 0
unfolding moved hex_digit
decoded-moves-none = refl

decoded_byte : (x : ℕ) → x < 256 → decoded x ≡ x
decoded_byte x byte = unmoved decoded 256 x byte decoded-moves-none

from_hex-to_hex : (bytes : List ℕ) → All (λ x. x < 256) bytes → from_hex (to_hex bytes) ≡ bytes
unfolding from_hex to_hex
from_hex-to_hex [] h = refl
from_hex-to_hex (x ∷ bytes) (h, hs) =
    ap (λ y. y ∷ from_hex (to_hex bytes)) (decoded_byte x h)
    ∙ ap (λ ys. x ∷ ys) (from_hex-to_hex bytes hs)

length-to_hex : (bytes : List ℕ) → length (to_hex bytes) ≡ 2 * length bytes
unfolding to_hex
length-to_hex [] = refl
length-to_hex (x ∷ bytes) = omega (arith, length-to_hex bytes)

digest-bytes : (v : Words) → All (λ x. x < 256) (digest v) × (length (digest v) ≡ 32)
unfolding digest
digest-bytes v = omega arith

abbrev IsWritten : List ℕ → Type 0
IsWritten bytes =
    (length bytes ≡ 32)
    × All (λ x. x < 256) bytes
    × (length (to_hex bytes) ≡ 64)
    × (from_hex (to_hex bytes) ≡ bytes)

digest-IsWritten : (v : Words) → IsWritten (digest v)
digest-IsWritten v =
    let (a, l) = digest-bytes v in
    (l, a, omega (arith, length-to_hex (digest v), l), from_hex-to_hex (digest v) a)

-- A hash has 32 bytes, each below 256, and is written as 64 digits that are read back as it.
pub hash-to_hex :
    (input : List ℕ)
    → (length (hash input) ≡ 32)
      × All (λ x. x < 256) (hash input)
      × (length (to_hex (hash input)) ≡ 64)
      × (from_hex (to_hex (hash input)) ≡ hash input)
unfolding reference_hash
hash-to_hex input =
    subst IsWritten (sym (hash-reference_hash input))
      (digest-IsWritten (fold_blocks (length (padded input) / 64) (padded input) initial_words))
