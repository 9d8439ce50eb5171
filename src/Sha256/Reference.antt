-- ===== src/Sha256/Reference.antt =====
-- `Sha256::hash` of Src_Simulation/include/net/sha256.hpp hashes the blocks of the padded message.
use stock_market_trading_sim.Common.{
  ℕ, zero, suc, ◌+◌, ◌-◌, ◌*◌, ◌/◌, ◌%◌, ◌^◌, ◌≡◌, ◌<◌, ◌≤◌, refl, sym, ap, ◌∙◌, subst, List, [],
  ◌∷◌, ◌++◌, length, length-append, length-drop, length-take, take, drop, take-drop, arith,
}
use stock_market_trading_sim.Sha256.{
  Hasher, new_hasher, process_block, take_in, update, pad_zeros, length_bytes, digest, finalize,
  hash,
}
use stock_market_trading_sim.Sha256.Stream.{
  absorb, absorb-append, absorb-take_in, absorb-lt, take_in-lt,
}
use stock_market_trading_sim.Sha256.Padding.{
  zeros, length-zeros, padded, fold_blocks, reference_hash, retotal, absorb-retotal, update-absorb,
  update_byte, absorb-length, take_in-length, gap, pad_zeros-absorb, padded-length,
}

-- A piece that fills the block.
take_in_full :
    (xs : List ℕ) (s : Hasher)
    → length s.buffer + length xs ≡ 64
    → (take_in xs s).h ≡ process_block (s.buffer ++ xs) s.h
unfolding take_in
take_in_full xs s h = ground (arith, length-append s.buffer xs)

absorb_full :
    (xs : List ℕ) (s : Hasher)
    → 0 < length xs
    → length s.buffer + length xs ≡ 64
    → (absorb xs s).h ≡ process_block (s.buffer ++ xs) s.h
absorb_full [] s p h = absurd (omega (arith, p))
absorb_full (x ∷ xs) s p h =
    ap (λ r. r.h) (absorb-take_in x xs s (omega (arith, h))) ∙ take_in_full (x ∷ xs) s h

emptied : (s : Hasher) → length s.buffer ≡ 0 → s.buffer ≡ []
emptied s h = ground (arith, h)

first_length :
    (xs : List ℕ) (s : Hasher)
    → 64 ≤ length xs
    → s.buffer ≡ []
    → length (absorb (take 64 xs) s).buffer ≡ 0
first_length xs s h e = omega (
  arith,
  absorb-length (take 64 xs) s (omega (arith, ap length e)),
  length-take 64 xs h,
  ap length e,
)

first_block :
    (xs : List ℕ) (s : Hasher)
    → 64 ≤ length xs
    → s.buffer ≡ []
    → (absorb (take 64 xs) s).h ≡ process_block (take 64 xs) s.h
first_block xs s h e =
    absorb_full (take 64 xs) s (omega (arith, length-take 64 xs h))
      (omega (arith, length-take 64 xs h, ap length e))
    ∙ ap (λ b. process_block (b ++ take 64 xs) s.h) e

absorb-fold_blocks :
    (n : ℕ) (xs : List ℕ) (s : Hasher)
    → length xs ≡ 64 * n
    → s.buffer ≡ []
    → (absorb xs s).h ≡ fold_blocks n xs s.h
unfolding fold_blocks
absorb-fold_blocks zero [] s h e = unfold absorb in refl
absorb-fold_blocks zero (x ∷ xs) s h e = absurd (omega (arith, h))
absorb-fold_blocks (suc n) xs s h e =
    ap (λ ys. (absorb ys s).h) (sym (take-drop 64 xs))
    ∙ ap (λ r. r.h) (absorb-append (take 64 xs) (drop 64 xs) s)
    ∙ absorb-fold_blocks n (drop 64 xs) (absorb (take 64 xs) s)
        (omega (arith, h, length-drop 64 xs))
        (emptied (absorb (take 64 xs) s) (first_length xs s (omega (arith, h)) e))
    ∙ ap (fold_blocks n (drop 64 xs)) (first_block xs s (omega (arith, h)) e)

-- What finalize hashes: the byte 0x80, the zero bytes and the length.
abbrev tail_of : Hasher → List ℕ
tail_of s =
    0x80
    ∷ (zeros (gap (length (take_in (0x80 ∷ []) s).buffer))
        ++ length_bytes (s.total_len * 8 % 2 ^ 64))

abbrev zeroed : Hasher → Hasher
zeroed s = absorb (zeros (gap (length (take_in (0x80 ∷ []) s).buffer))) (take_in (0x80 ∷ []) s)

abbrev closing : ℕ → Hasher → List ℕ
closing bit_len p = digest (process_block (p.buffer ++ length_bytes bit_len) p.h)

length-length_bytes : (n : ℕ) → length (length_bytes n) ≡ 8
unfolding length_bytes
length-length_bytes n = refl

after_byte :
    (s : Hasher) (zs ls : List ℕ)
    → absorb (0x80 ∷ (zs ++ ls)) s ≡ absorb ls (absorb zs (take_in (0x80 ∷ []) s))
unfolding absorb
after_byte s zs ls = absorb-append zs ls (take_in (0x80 ∷ []) s)

pub padded_total :
    (s : Hasher)
    → length s.buffer < 64
    → (t : ℕ) × (pad_zeros 64 (update (0x80 ∷ []) s) ≡ retotal t (zeroed s))
padded_total s l =
    let (t, p) =
      pad_zeros-absorb 64 (retotal ((s.total_len + 1) % 2 ^ 64) (take_in (0x80 ∷ []) s))
        (omega arith) (take_in-lt (0x80 ∷ []) s (omega (arith, l))) in
    (
      t,
      ap (pad_zeros 64) (update_byte 0x80 s l)
          ∙ p
          ∙ ap (retotal t) (
              absorb-retotal (zeros (gap (length (take_in (0x80 ∷ []) s).buffer)))
                ((s.total_len + 1) % 2 ^ 64) (take_in (0x80 ∷ []) s)),
    )

finalize-absorb : (s : Hasher) → length s.buffer < 64 → finalize s ≡ digest (absorb (tail_of s) s).h
unfolding finalize
finalize-absorb s l =
    ap (closing (s.total_len * 8 % 2 ^ 64)) (padded_total s l).1
    ∙ sym (
        ap digest (
          ap (λ r. r.h)
            (after_byte s (zeros (gap (length (take_in (0x80 ∷ []) s).buffer)))
              (length_bytes (s.total_len * 8 % 2 ^ 64)))
          ∙ absorb_full (length_bytes (s.total_len * 8 % 2 ^ 64)) (zeroed s)
              (omega (arith, length-length_bytes (s.total_len * 8 % 2 ^ 64)))
              (omega (
                arith,
                padded-length (take_in (0x80 ∷ []) s) (take_in-lt (0x80 ∷ []) s (omega (arith, l))),
                length-length_bytes (s.total_len * 8 % 2 ^ 64),
              ))))

pub length-padded : (input : List ℕ) → length (padded input) ≡ 64 * (length (padded input) / 64)
unfolding padded length_bytes
length-padded input = omega (
  arith,
  length-append input
      (0x80 ∷ (zeros ((119 - length input % 64) % 64) ++ length_bytes (length input * 8 % 2 ^ 64))),
  length-append (zeros ((119 - length input % 64) % 64)) (length_bytes (length input * 8 % 2 ^ 64)),
  length-zeros ((119 - length input % 64) % 64),
)

abbrev counted : List ℕ → Hasher
counted input = retotal ((0 + length input) % 2 ^ 64) (absorb input new_hasher)

abbrev tail_bytes : List ℕ → List ℕ
tail_bytes input =
    0x80 ∷ (zeros ((119 - length input % 64) % 64) ++ length_bytes (length input * 8 % 2 ^ 64))

gap_lem :
    (input : List ℕ)
    → gap (length (take_in (0x80 ∷ []) (counted input)).buffer) ≡ (119 - length input % 64) % 64
gap_lem input = omega (
  arith,
  take_in-length 0x80 (counted input) (absorb-lt input new_hasher (omega arith)),
  absorb-length input new_hasher (omega arith),
)

bits_lem : (n : ℕ) → (0 + n) % 2 ^ 64 * 8 % 2 ^ 64 ≡ n * 8 % 2 ^ 64
bits_lem n = omega arith

tail_lem : (input : List ℕ) → tail_of (counted input) ≡ tail_bytes input
tail_lem input =
    ap (λ z. 0x80 ∷ (zeros z ++ length_bytes ((0 + length input) % 2 ^ 64 * 8 % 2 ^ 64)))
      (gap_lem input)
    ∙ ap (λ b. 0x80 ∷ (zeros ((119 - length input % 64) % 64) ++ length_bytes b))
        (bits_lem (length input))

updated_lt : (input : List ℕ) → length (update input new_hasher).buffer < 64
updated_lt input =
    subst (λ r. length r.buffer < 64) (sym (update-absorb input new_hasher (omega arith)))
      (absorb-lt input new_hasher (omega arith))

-- The hash of a message is the digest of the blocks of the padded message.
pub hash-reference_hash : (input : List ℕ) → hash input ≡ reference_hash input
unfolding hash reference_hash padded
hash-reference_hash input =
    finalize-absorb (update input new_hasher) (updated_lt input)
    ∙ ap digest (
        ap (λ r. (absorb (tail_of r) r).h) (update-absorb input new_hasher (omega arith))
        ∙ ap (λ r. r.h)
            (absorb-retotal (tail_of (counted input)) ((0 + length input) % 2 ^ 64)
              (absorb input new_hasher))
        ∙ ap (λ ts. (absorb ts (absorb input new_hasher)).h) (tail_lem input)
        ∙ ap (λ r. r.h) (sym (absorb-append input (tail_bytes input) new_hasher))
        ∙ absorb-fold_blocks (length (padded input) / 64) (padded input) new_hasher
            (length-padded input) refl)
