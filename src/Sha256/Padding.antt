-- ===== src/Sha256/Padding.antt =====
-- The streaming hash of Src_Simulation/include/net/sha256.hpp against the definition of FIPS 180-4:
-- pad the message, cut it into blocks, and process them in order.
use stock_market_trading_sim.Common.{
  ℕ, zero, suc, ◌+◌, ◌-◌, ◌*◌, ◌/◌, ◌%◌, ◌^◌, ◌≡◌, ◌<◌, ◌≤◌, refl, ap, ◌∙◌, false, List, [], ◌∷◌,
  ◌++◌, length, length-append, take, drop, arith, eqb, Bool-cases, inl, inr,
}
use stock_market_trading_sim.Sha256.{
  Hasher, Words, initial_words, process_block, take_in, update, pad_zeros, length_bytes, digest,
}
use stock_market_trading_sim.Sha256.Stream.{absorb, take_in-lt, update_loop-absorb}

abbrev pub zeros : ℕ → List ℕ
zeros zero = []
zeros (suc n) = 0 ∷ zeros n

-- The padded message: a byte 0x80, zero bytes up to 56 modulo 64, and the length in bits.
unfoldable pub padded : List ℕ → List ℕ
padded input =
    input
    ++ 0x80 ∷ (zeros ((119 - length input % 64) % 64) ++ length_bytes (length input * 8 % 2 ^ 64))

unfoldable pub fold_blocks : ℕ → List ℕ → Words → Words
fold_blocks zero bytes h = h
fold_blocks (suc n) bytes h = fold_blocks n (drop 64 bytes) (process_block (take 64 bytes) h)

unfoldable pub reference_hash : List ℕ → List ℕ
reference_hash input =
    digest (fold_blocks (length (padded input) / 64) (padded input) initial_words)

-- Nothing that is absorbed depends on the total.
abbrev pub retotal : ℕ → Hasher → Hasher
retotal t s = record s { total_len = t }

take_in-retotal :
    (xs : List ℕ) (t : ℕ) (s : Hasher) → take_in xs (retotal t s) ≡ retotal t (take_in xs s)
unfolding take_in
take_in-retotal xs t s = ground arith

pub absorb-retotal :
    (xs : List ℕ) (t : ℕ) (s : Hasher) → absorb xs (retotal t s) ≡ retotal t (absorb xs s)
unfolding absorb
absorb-retotal [] t s = refl
absorb-retotal (x ∷ xs) t s =
    ap (absorb xs) (take_in-retotal (x ∷ []) t s) ∙ absorb-retotal xs t (take_in (x ∷ []) s)

pub update-absorb :
    (bytes : List ℕ) (s : Hasher)
    → length s.buffer < 64
    → update bytes s ≡ retotal ((s.total_len + length bytes) % 2 ^ 64) (absorb bytes s)
unfolding update
update-absorb bytes s l =
    update_loop-absorb (length bytes) bytes (retotal ((s.total_len + length bytes) % 2 ^ 64) s)
      (omega arith) l
    ∙ absorb-retotal bytes ((s.total_len + length bytes) % 2 ^ 64) s

pub take_in-length :
    (x : ℕ) (s : Hasher)
    → length s.buffer < 64
    → length (take_in (x ∷ []) s).buffer ≡ (length s.buffer + 1) % 64
unfolding take_in
take_in-length x s l = ground (arith, length-append s.buffer (x ∷ []))

pub absorb-length :
    (xs : List ℕ) (s : Hasher)
    → length s.buffer < 64
    → length (absorb xs s).buffer ≡ (length s.buffer + length xs) % 64
unfolding absorb
absorb-length [] s l = omega (arith, l)
absorb-length (x ∷ xs) s l = omega (
  arith,
  take_in-length x s l,
  absorb-length xs (take_in (x ∷ []) s) (take_in-lt (x ∷ []) s (omega (arith, l))),
)

-- The zero bytes that are missing at a length of the buffer.
abbrev pub gap : ℕ → ℕ
gap n = (120 - n) % 64

no_gap :
    (s : Hasher)
    → gap (length s.buffer) ≡ 0
    → s ≡ retotal s.total_len (absorb (zeros (gap (length s.buffer))) s)
unfolding absorb
no_gap s e = rw e refl

one_less :
    (s : Hasher)
    → length s.buffer < 64
    → eqb (length s.buffer) 56 ≡ false
    → gap (length s.buffer) ≡ suc (gap (length (take_in (0 ∷ []) s).buffer))
one_less s l e = ground (arith, take_in-length 0 s l)

zero_more :
    (s1 s : Hasher)
    → s1 ≡ take_in (0 ∷ []) s
    → gap (length s.buffer) ≡ suc (gap (length s1.buffer))
    → absorb (zeros (gap (length s1.buffer))) s1 ≡ absorb (zeros (gap (length s.buffer))) s
unfolding absorb
zero_more s1 s h e = rw e (ap (absorb (zeros (gap (length s1.buffer)))) h)

pub update_byte :
    (x : ℕ) (s : Hasher)
    → length s.buffer < 64
    → update (x ∷ []) s ≡ retotal ((s.total_len + 1) % 2 ^ 64) (take_in (x ∷ []) s)
unfolding absorb
update_byte x s l = update-absorb (x ∷ []) s l

pub length-zeros : (n : ℕ) → length (zeros n) ≡ n
length-zeros zero = refl
length-zeros (suc n) = ap suc (length-zeros n)

pub pad_zeros-absorb :
    (rounds : ℕ) (s : Hasher)
    → gap (length s.buffer) ≤ rounds
    → length s.buffer < 64
    → (t : ℕ) × (pad_zeros rounds s ≡ retotal t (absorb (zeros (gap (length s.buffer))) s))
unfolding pad_zeros
pad_zeros-absorb zero s h l = (s.total_len, no_gap s (omega (arith, h)))
pad_zeros-absorb (suc rounds) s h l = elim (Bool-cases (eqb (length s.buffer) 56)) [
  | inl e ↦ rw e (s.total_len, no_gap s (ground (arith, e)))
  | inr e ↦
      let (t, p) =
        pad_zeros-absorb rounds (retotal ((s.total_len + 1) % 2 ^ 64) (take_in (0 ∷ []) s))
          (ground (arith, one_less s l e, h)) (take_in-lt (0 ∷ []) s (omega (arith, l))) in
      rw e (
        t,
        ap (pad_zeros rounds) (update_byte 0 s l)
            ∙ p
            ∙ ap (retotal t) (
                absorb-retotal (zeros (gap (length (take_in (0 ∷ []) s).buffer))) _
                  (take_in (0 ∷ []) s))
            ∙ ap (retotal t) (zero_more (take_in (0 ∷ []) s) s refl (one_less s l e)),
      )
]

-- A padded hasher has room for exactly the length.
pub padded-length :
    (s : Hasher)
    → length s.buffer < 64
    → length (absorb (zeros (gap (length s.buffer))) s).buffer ≡ 56
padded-length s l = omega (
  arith,
  l,
  absorb-length (zeros (gap (length s.buffer))) s l,
  length-zeros (gap (length s.buffer)),
)
