-- ===== src/Sha256.antt =====
-- Src_Simulation/include/net/sha256.hpp: SHA-256 over bytes, which are numbers below 256. A
-- `std::uint32_t` is a number below 2^32, and its sums wrap.
pub mod Stream
pub mod Padding
pub mod Reference
pub mod Standard
pub mod Hex
use Prim.Native.Nat.{bit_and, bit_or, bit_xor}
use stock_market_trading_sim.Common.{
  ℕ, zero, suc, ◌+◌, ◌-◌, ◌*◌, ◌/◌, ◌%◌, ◌^◌, min, Bool, true, false, List, [], ◌∷◌, ◌++◌, length,
  take, drop, eqb, ltb, if◌then◌else◌,
}

abbrev pub u32_mod : ℕ
u32_mod = 2 ^ 32

-- The eight words of `h_`, and the variables a to hh of a block.
pub record Words : Type 0 where
  pub a : ℕ
  pub b : ℕ
  pub c : ℕ
  pub d : ℕ
  pub e : ℕ
  pub f : ℕ
  pub g : ℕ
  pub hh : ℕ

-- `buffer` holds the first `buffer_len_` bytes of `buffer_`.
pub record Hasher : Type 0 where
  pub h : Words
  pub buffer : List ℕ
  pub total_len : ℕ

abbrev pub initial_words : Words
initial_words = record {
  a = 0x6a09e667;
  b = 0xbb67ae85;
  c = 0x3c6ef372;
  d = 0xa54ff53a;
  e = 0x510e527f;
  f = 0x9b05688c;
  g = 0x1f83d9ab;
  hh = 0x5be0cd19;
}

abbrev pub new_hasher : Hasher
new_hasher = record { h = initial_words; buffer = []; total_len = 0 }

unfoldable pub rotr : ℕ → ℕ → ℕ
rotr x n = bit_or (x / 2 ^ n) (x * 2 ^ (32 - n) % u32_mod)

abbrev pub complement : ℕ → ℕ
complement x = u32_mod - 1 - x

abbrev pub round_constants : List ℕ
round_constants =
    0x428a2f98 ∷ 0x71374491 ∷ 0xb5c0fbcf ∷ 0xe9b5dba5 ∷ 0x3956c25b ∷ 0x59f111f1 ∷ 0x923f82a4
    ∷ 0xab1c5ed5 ∷ 0xd807aa98 ∷ 0x12835b01 ∷ 0x243185be ∷ 0x550c7dc3 ∷ 0x72be5d74 ∷ 0x80deb1fe
    ∷ 0x9bdc06a7 ∷ 0xc19bf174 ∷ 0xe49b69c1 ∷ 0xefbe4786 ∷ 0x0fc19dc6 ∷ 0x240ca1cc ∷ 0x2de92c6f
    ∷ 0x4a7484aa ∷ 0x5cb0a9dc ∷ 0x76f988da ∷ 0x983e5152 ∷ 0xa831c66d ∷ 0xb00327c8 ∷ 0xbf597fc7
    ∷ 0xc6e00bf3 ∷ 0xd5a79147 ∷ 0x06ca6351 ∷ 0x14292967 ∷ 0x27b70a85 ∷ 0x2e1b2138 ∷ 0x4d2c6dfc
    ∷ 0x53380d13 ∷ 0x650a7354 ∷ 0x766a0abb ∷ 0x81c2c92e ∷ 0x92722c85 ∷ 0xa2bfe8a1 ∷ 0xa81a664b
    ∷ 0xc24b8b70 ∷ 0xc76c51a3 ∷ 0xd192e819 ∷ 0xd6990624 ∷ 0xf40e3585 ∷ 0x106aa070 ∷ 0x19a4c116
    ∷ 0x1e376c08 ∷ 0x2748774c ∷ 0x34b0bcb5 ∷ 0x391c0cb3 ∷ 0x4ed8aa4a ∷ 0x5b9cca4f ∷ 0x682e6ff3
    ∷ 0x748f82ee ∷ 0x78a5636f ∷ 0x84c87814 ∷ 0x8cc70208 ∷ 0x90befffa ∷ 0xa4506ceb ∷ 0xbef9a3f7
    ∷ 0xc67178f2 ∷ []

-- The words of a block, big-endian: the first loop over `w`.
unfoldable pub words_of : List ℕ → List ℕ
words_of (p ∷ q ∷ r ∷ s ∷ bytes) =
    bit_or (bit_or (bit_or (p * 2 ^ 24 % u32_mod) (q * 2 ^ 16)) (r * 2 ^ 8)) s ∷ words_of bytes
words_of _ = []

-- `w[i]`
abbrev pub word_at : List ℕ → ℕ → ℕ
word_at [] i = 0
word_at (x ∷ xs) zero = x
word_at (x ∷ xs) (suc i) = word_at xs i

abbrev pub small_sigma0 : ℕ → ℕ
small_sigma0 x = bit_xor (bit_xor (rotr x 7) (rotr x 18)) (x / 2 ^ 3)

abbrev pub small_sigma1 : ℕ → ℕ
small_sigma1 x = bit_xor (bit_xor (rotr x 17) (rotr x 19)) (x / 2 ^ 10)

abbrev pub next_word : List ℕ → ℕ → ℕ
next_word w i =
    (word_at w (i - 16)
      + small_sigma0 (word_at w (i - 15))
      + word_at w (i - 7)
      + small_sigma1 (word_at w (i - 2)))
    % u32_mod

-- The second loop over `w`, with the rounds that are left and i.
unfoldable pub extend : ℕ → ℕ → List ℕ → List ℕ
extend zero i w = w
extend (suc rounds) i w = extend rounds (i + 1) (w ++ next_word w i ∷ [])

abbrev pub temp1 : ℕ → ℕ → Words → ℕ
temp1 k w v =
    (v.hh
      + bit_xor (bit_xor (rotr v.e 6) (rotr v.e 11)) (rotr v.e 25)
      + bit_xor (bit_and v.e v.f) (bit_and (complement v.e) v.g)
      + k
      + w)
    % u32_mod

abbrev pub temp2 : Words → ℕ
temp2 v =
    (bit_xor (bit_xor (rotr v.a 2) (rotr v.a 13)) (rotr v.a 22)
      + bit_xor (bit_xor (bit_and v.a v.b) (bit_and v.a v.c)) (bit_and v.b v.c))
    % u32_mod

unfoldable pub compress_round : ℕ → ℕ → Words → Words
compress_round t1 t2 v = record {
  a = (t1 + t2) % u32_mod;
  b = v.a;
  c = v.b;
  d = v.c;
  e = (v.d + t1) % u32_mod;
  f = v.e;
  g = v.f;
  hh = v.g;
}

-- The loop over the 64 rounds, over the constants and the words.
unfoldable pub compress : List ℕ → List ℕ → Words → Words
compress [] ws v = v
compress (k ∷ ks) [] v = v
compress (k ∷ ks) (w ∷ ws) v = compress ks ws (compress_round (temp1 k w v) (temp2 v) v)

abbrev pub add_words : Words → Words → Words
add_words x y = record {
  a = (x.a + y.a) % u32_mod;
  b = (x.b + y.b) % u32_mod;
  c = (x.c + y.c) % u32_mod;
  d = (x.d + y.d) % u32_mod;
  e = (x.e + y.e) % u32_mod;
  f = (x.f + y.f) % u32_mod;
  g = (x.g + y.g) % u32_mod;
  hh = (x.hh + y.hh) % u32_mod;
}

unfoldable pub process_block : List ℕ → Words → Words
process_block block h = add_words h (compress round_constants (extend 48 16 (words_of block)) h)

-- What the loop of `update` does with the bytes that it copied.
unfoldable pub take_in : List ℕ → Hasher → Hasher
take_in chunk s =
    let filled = s.buffer ++ chunk in
    if eqb (length filled) 64
    then record s { h = process_block filled s.h; buffer = [] }
    else record s { buffer = filled }

abbrev pub room : Hasher → List ℕ → ℕ
room s bytes = min (length bytes) (64 - length s.buffer)

-- The loop of `update`, with at most as many rounds as there are bytes.
unfoldable pub update_loop : ℕ → List ℕ → Hasher → Hasher
update_loop rounds [] s = s
update_loop zero (x ∷ bytes) s = s
update_loop (suc rounds) (x ∷ bytes) s =
    let n = room s (x ∷ bytes) in
    update_loop rounds (drop n (x ∷ bytes)) (take_in (take n (x ∷ bytes)) s)

unfoldable pub update : List ℕ → Hasher → Hasher
update bytes s =
    update_loop (length bytes) bytes
      (record s { total_len = (s.total_len + length bytes) % 2 ^ 64 })

-- The loop that pads by zero bytes.
unfoldable pub pad_zeros : ℕ → Hasher → Hasher
pad_zeros zero s = s
pad_zeros (suc rounds) s =
    let padded = pad_zeros rounds (update (0 ∷ []) s) in
    if eqb (length s.buffer) 56 then s else padded

-- The bytes of the length, big-endian.
unfoldable pub length_bytes : ℕ → List ℕ
length_bytes bit_len =
    bit_len / 2 ^ 56 % 256
    ∷ bit_len / 2 ^ 48 % 256
    ∷ bit_len / 2 ^ 40 % 256
    ∷ bit_len / 2 ^ 32 % 256
    ∷ bit_len / 2 ^ 24 % 256
    ∷ bit_len / 2 ^ 16 % 256
    ∷ bit_len / 2 ^ 8 % 256
    ∷ bit_len % 256
    ∷ []

abbrev pub bytes_of : ℕ → List ℕ
bytes_of x = x / 2 ^ 24 % 256 ∷ x / 2 ^ 16 % 256 ∷ x / 2 ^ 8 % 256 ∷ x % 256 ∷ []

unfoldable pub digest : Words → List ℕ
digest v =
    bytes_of v.a
    ++ (bytes_of v.b
        ++ (bytes_of v.c
            ++ (bytes_of v.d
                ++ (bytes_of v.e ++ (bytes_of v.f ++ (bytes_of v.g ++ bytes_of v.hh))))))

unfoldable pub finalize : Hasher → List ℕ
finalize s =
    let bit_len = s.total_len * 8 % 2 ^ 64 in
    let padded = pad_zeros 64 (update (0x80 ∷ []) s) in
    digest (process_block (padded.buffer ++ length_bytes bit_len) padded.h)

unfoldable pub hash : List ℕ → List ℕ
hash input = finalize (update input new_hasher)

unfoldable pub hex_digit : ℕ → ℕ
hex_digit n = if ltb n 10 then 48 + n else 87 + n

unfoldable pub to_hex : List ℕ → List ℕ
to_hex [] = []
to_hex (x ∷ bytes) = hex_digit (x / 2 ^ 4) ∷ hex_digit (bit_and x 0x0f) ∷ to_hex bytes
