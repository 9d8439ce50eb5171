-- ===== src/Sha256/Standard.antt =====
-- SHA-256 as FIPS 180-4 defines it, which shares with the code of
-- Src_Simulation/include/net/sha256.hpp only the record of the eight words.
use Prim.Native.Nat.{bit_and, bit_or, bit_xor}
use stock_market_trading_sim.Common.{
  ℕ, zero, suc, ◌+◌, ◌-◌, ◌*◌, ◌/◌, ◌%◌, ◌^◌, ◌≡◌, refl, ap, ◌∙◌, List, [], ◌∷◌, ◌++◌, map, length,
  take, drop, arith, leb, if◌then◌else◌,
}
use stock_market_trading_sim.Sha256.{
  Words, initial_words, round_constants, rotr, words_of, word_at, extend, next_word, compress_round,
  compress, add_words, process_block, length_bytes, digest, hash,
}
use stock_market_trading_sim.Sha256.Padding.{zeros, padded, fold_blocks, reference_hash}
use stock_market_trading_sim.Sha256.Reference.{hash-reference_hash}

-- Section 4.2.2 and 5.3.3: the first 32 bits of the fractional parts of the cube roots of the first
-- 64 primes, and of the square roots of the first eight. A root is found bit by bit.
abbrev primes : List ℕ
primes =
    2 ∷ 3 ∷ 5 ∷ 7 ∷ 11 ∷ 13 ∷ 17 ∷ 19 ∷ 23 ∷ 29 ∷ 31 ∷ 37 ∷ 41 ∷ 43 ∷ 47 ∷ 53 ∷ 59 ∷ 61 ∷ 67 ∷ 71
    ∷ 73 ∷ 79 ∷ 83 ∷ 89 ∷ 97 ∷ 101 ∷ 103 ∷ 107 ∷ 109 ∷ 113 ∷ 127 ∷ 131 ∷ 137 ∷ 139 ∷ 149 ∷ 151 ∷ 157
    ∷ 163 ∷ 167 ∷ 173 ∷ 179 ∷ 181 ∷ 191 ∷ 193 ∷ 197 ∷ 199 ∷ 211 ∷ 223 ∷ 227 ∷ 229 ∷ 233 ∷ 239 ∷ 241
    ∷ 251 ∷ 257 ∷ 263 ∷ 269 ∷ 271 ∷ 277 ∷ 281 ∷ 283 ∷ 293 ∷ 307 ∷ 311 ∷ []

root : ℕ → ℕ → ℕ → ℕ → ℕ
root power zero target found = found
root power (suc bit) target found =
    root power bit target
      (if leb ((found + 2 ^ bit) ^ power) target then found + 2 ^ bit else found)

unfoldable pub fractional_bits : ℕ → ℕ → ℕ
unfolding root
fractional_bits power prime = root power 35 (prime * 2 ^ (32 * power)) 0 % 2 ^ 32

unfoldable pub standard_constants : List ℕ
standard_constants = map (fractional_bits 3) primes

unfoldable pub standard_words : Words
standard_words = record {
  a = fractional_bits 2 2;
  b = fractional_bits 2 3;
  c = fractional_bits 2 5;
  d = fractional_bits 2 7;
  e = fractional_bits 2 11;
  f = fractional_bits 2 13;
  g = fractional_bits 2 17;
  hh = fractional_bits 2 19;
}

-- Section 3.2 and 4.1.2: the functions on words of 32 bits.
abbrev shift_right : ℕ → ℕ → ℕ
shift_right n x = x / 2 ^ n

abbrev rotate_right : ℕ → ℕ → ℕ
rotate_right n x = bit_or (shift_right n x) (x * 2 ^ (32 - n) % 2 ^ 32)

abbrev choose : ℕ → ℕ → ℕ → ℕ
choose x y z = bit_xor (bit_and x y) (bit_and (2 ^ 32 - 1 - x) z)

abbrev majority : ℕ → ℕ → ℕ → ℕ
majority x y z = bit_xor (bit_xor (bit_and x y) (bit_and x z)) (bit_and y z)

abbrev upper0 : ℕ → ℕ
upper0 x = bit_xor (bit_xor (rotate_right 2 x) (rotate_right 13 x)) (rotate_right 22 x)

abbrev upper1 : ℕ → ℕ
upper1 x = bit_xor (bit_xor (rotate_right 6 x) (rotate_right 11 x)) (rotate_right 25 x)

abbrev lower0 : ℕ → ℕ
lower0 x = bit_xor (bit_xor (rotate_right 7 x) (rotate_right 18 x)) (shift_right 3 x)

abbrev lower1 : ℕ → ℕ
lower1 x = bit_xor (bit_xor (rotate_right 17 x) (rotate_right 19 x)) (shift_right 10 x)

-- Section 5: a number as some bytes, the words of a block, and the padded message.
abbrev big_endian : ℕ → ℕ → List ℕ
big_endian zero n = []
big_endian (suc zero) n = n % 256 ∷ []
big_endian (suc (suc bytes)) n = n / 256 ^ suc bytes % 256 ∷ big_endian (suc bytes) n

unfoldable pub standard_block_words : List ℕ → List ℕ
standard_block_words (p ∷ q ∷ r ∷ s ∷ bytes) =
    bit_or (bit_or (bit_or (p * 2 ^ 24 % 2 ^ 32) (q * 2 ^ 16)) (r * 2 ^ 8)) s
    ∷ standard_block_words bytes
standard_block_words _ = []

unfoldable pub standard_padded : List ℕ → List ℕ
standard_padded input =
    input
    ++ 0x80 ∷ (zeros ((119 - length input % 64) % 64) ++ big_endian 8 (length input * 8 % 2 ^ 64))

-- Section 6.2.2: the schedule, the rounds and the hash.
abbrev word : List ℕ → ℕ → ℕ
word [] t = 0
word (w ∷ ws) zero = w
word (w ∷ ws) (suc t) = word ws t

abbrev scheduled : List ℕ → ℕ → ℕ
scheduled w t =
    (lower1 (word w (t - 2)) + word w (t - 7) + lower0 (word w (t - 15)) + word w (t - 16)) % 2 ^ 32

unfoldable pub schedule : ℕ → ℕ → List ℕ → List ℕ
schedule zero t w = w
schedule (suc left) t w = schedule left (t + 1) (w ++ scheduled w t ∷ [])

abbrev standard_round : ℕ → ℕ → Words → Words
standard_round k w v =
    let t1 = (v.hh + upper1 v.e + choose v.e v.f v.g + k + w) % 2 ^ 32 in
    let t2 = (upper0 v.a + majority v.a v.b v.c) % 2 ^ 32 in
    record {
      hh = v.g;
      g = v.f;
      f = v.e;
      e = (v.d + t1) % 2 ^ 32;
      d = v.c;
      c = v.b;
      b = v.a;
      a = (t1 + t2) % 2 ^ 32;
    }

unfoldable pub standard_rounds : List ℕ → List ℕ → Words → Words
standard_rounds [] ws v = v
standard_rounds (k ∷ ks) [] v = v
standard_rounds (k ∷ ks) (w ∷ ws) v = standard_rounds ks ws (standard_round k w v)

abbrev sum_of : Words → Words → Words
sum_of x y = record {
  a = (x.a + y.a) % 2 ^ 32;
  b = (x.b + y.b) % 2 ^ 32;
  c = (x.c + y.c) % 2 ^ 32;
  d = (x.d + y.d) % 2 ^ 32;
  e = (x.e + y.e) % 2 ^ 32;
  f = (x.f + y.f) % 2 ^ 32;
  g = (x.g + y.g) % 2 ^ 32;
  hh = (x.hh + y.hh) % 2 ^ 32;
}

unfoldable pub standard_block : List ℕ → Words → Words
standard_block block h =
    sum_of h (standard_rounds standard_constants (schedule 48 16 (standard_block_words block)) h)

unfoldable pub standard_blocks : ℕ → List ℕ → Words → Words
standard_blocks zero bytes h = h
standard_blocks (suc n) bytes h =
    standard_blocks n (drop 64 bytes) (standard_block (take 64 bytes) h)

unfoldable pub standard_digest : Words → List ℕ
standard_digest v =
    big_endian 4 v.a
    ++ (big_endian 4 v.b
        ++ (big_endian 4 v.c
            ++ (big_endian 4 v.d
                ++ (big_endian 4 v.e
                    ++ (big_endian 4 v.f ++ (big_endian 4 v.g ++ big_endian 4 v.hh))))))

unfoldable pub standard_hash : List ℕ → List ℕ
standard_hash input =
    standard_digest
      (standard_blocks (length (standard_padded input) / 64) (standard_padded input) standard_words)

constants_eq : round_constants ≡ standard_constants
unfolding standard_constants fractional_bits root
constants_eq = refl

words_eq : initial_words ≡ standard_words
unfolding standard_words fractional_bits root
words_eq = refl

block_words_eq : (block : List ℕ) → words_of block ≡ standard_block_words block
unfolding words_of standard_block_words
block_words_eq [] = refl
block_words_eq (p ∷ []) = refl
block_words_eq (p ∷ q ∷ []) = refl
block_words_eq (p ∷ q ∷ r ∷ []) = refl
block_words_eq (p ∷ q ∷ r ∷ s ∷ bytes) =
    ap (λ ws. bit_or (bit_or (bit_or (p * 2 ^ 24 % 2 ^ 32) (q * 2 ^ 16)) (r * 2 ^ 8)) s ∷ ws)
      (block_words_eq bytes)

word_eq : (w : List ℕ) (t : ℕ) → word_at w t ≡ word w t
word_eq [] t = refl
word_eq (x ∷ w) zero = refl
word_eq (x ∷ w) (suc t) = word_eq w t

sum_order : (p q r s : ℕ) → (p + q + r + s) % 2 ^ 32 ≡ (s + r + q + p) % 2 ^ 32
sum_order p q r s = ap (λ n. n % 2 ^ 32) (omega arith)

scheduled_eq : (w : List ℕ) (t : ℕ) → next_word w t ≡ scheduled w t
unfolding rotr
scheduled_eq w t =
    rw (word_eq w (t - 16), word_eq w (t - 15), word_eq w (t - 7), word_eq w (t - 2))
      (sum_order (word w (t - 16)) (lower0 (word w (t - 15))) (word w (t - 7))
        (lower1 (word w (t - 2))))

schedule_eq : (left t : ℕ) (w : List ℕ) → extend left t w ≡ schedule left t w
unfolding extend schedule
schedule_eq zero t w = refl
schedule_eq (suc left) t w =
    schedule_eq left (t + 1) (w ++ next_word w t ∷ [])
    ∙ ap (λ x. schedule left (t + 1) (w ++ x ∷ [])) (scheduled_eq w t)

rounds_eq : (ks ws : List ℕ) (v : Words) → compress ks ws v ≡ standard_rounds ks ws v
unfolding compress standard_rounds compress_round rotr
rounds_eq [] ws v = refl
rounds_eq (k ∷ ks) [] v = refl
rounds_eq (k ∷ ks) (w ∷ ws) v = rounds_eq ks ws (standard_round k w v)

block_eq : (block : List ℕ) (h : Words) → process_block block h ≡ standard_block block h
unfolding process_block standard_block
block_eq block h =
    ap (λ ks. add_words h (compress ks (extend 48 16 (words_of block)) h)) constants_eq
    ∙ ap (λ ws. add_words h (compress standard_constants ws h))
        (schedule_eq 48 16 (words_of block) ∙ ap (schedule 48 16) (block_words_eq block))
    ∙ ap (add_words h)
        (rounds_eq standard_constants (schedule 48 16 (standard_block_words block)) h)

blocks_eq : (n : ℕ) (bytes : List ℕ) (h : Words) → fold_blocks n bytes h ≡ standard_blocks n bytes h
unfolding fold_blocks standard_blocks
blocks_eq zero bytes h = refl
blocks_eq (suc n) bytes h =
    blocks_eq n (drop 64 bytes) (process_block (take 64 bytes) h)
    ∙ ap (standard_blocks n (drop 64 bytes)) (block_eq (take 64 bytes) h)

padded_eq : (input : List ℕ) → padded input ≡ standard_padded input
unfolding padded standard_padded length_bytes
padded_eq input = refl

digest_eq : (v : Words) → digest v ≡ standard_digest v
unfolding digest standard_digest
digest_eq v = refl

-- The streaming hash of a message is the standard's: the digest of the blocks of the padded message,
-- processed in order, with constants and initial words that are computed as bits of roots of primes.
-- A message's length in bits is taken modulo 2^64.
pub hash-standard_hash : (input : List ℕ) → hash input ≡ standard_hash input
unfolding reference_hash standard_hash
hash-standard_hash input =
    hash-reference_hash input
    ∙ ap (λ bytes. digest (fold_blocks (length bytes / 64) bytes initial_words)) (padded_eq input)
    ∙ digest_eq _
    ∙ ap standard_digest
        (blocks_eq (length (standard_padded input) / 64) (standard_padded input) initial_words)
    ∙ ap
        (λ h.
          standard_digest
            (standard_blocks (length (standard_padded input) / 64) (standard_padded input) h))
        words_eq
