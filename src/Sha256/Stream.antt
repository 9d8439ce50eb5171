-- ===== src/Sha256/Stream.antt =====
-- How the bytes of Src_Simulation/include/net/sha256.hpp are absorbed: in pieces, or one by one.
use stock_market_trading_sim.Common.{
  ℕ, zero, suc, ◌+◌, ◌-◌, ◌≡◌, ◌<◌, ◌≤◌, refl, sym, ap, ◌∙◌, subst, List, [], ◌∷◌, ◌++◌, length,
  length-append, length-drop, length-take, take-drop, take, drop, arith,
}
use mathlib.Core.List.{append_assoc}
use stock_market_trading_sim.Sha256.{Hasher, take_in, room, update_loop}

-- One byte, as an update of length one takes it in.
unfoldable pub absorb : List ℕ → Hasher → Hasher
absorb [] s = s
absorb (x ∷ bytes) s = absorb bytes (take_in (x ∷ []) s)

pub absorb-append : (xs ys : List ℕ) (s : Hasher) → absorb (xs ++ ys) s ≡ absorb ys (absorb xs s)
unfolding absorb
absorb-append [] ys s = refl
absorb-append (x ∷ xs) ys s = absorb-append xs ys (take_in (x ∷ []) s)

-- The state after a byte that does not fill the block.
abbrev opened : ℕ → Hasher → Hasher
opened x s = record s { buffer = s.buffer ++ x ∷ [] }

take_in_byte : (x : ℕ) (s : Hasher) → length s.buffer + 1 < 64 → take_in (x ∷ []) s ≡ opened x s
unfolding take_in
take_in_byte x s h = ground (arith, length-append s.buffer (x ∷ []))

take_in_assoc : (x : ℕ) (ys : List ℕ) (s : Hasher) → take_in ys (opened x s) ≡ take_in (x ∷ ys) s
unfolding take_in
take_in_assoc x ys s = rw (append_assoc s.buffer (x ∷ []) ys) refl

-- A piece that does not go past the end of the block.
pub absorb-take_in :
    (x : ℕ) (xs : List ℕ) (s : Hasher)
    → length s.buffer + length xs < 64
    → absorb (x ∷ xs) s ≡ take_in (x ∷ xs) s
unfolding absorb
absorb-take_in x [] s h = refl
absorb-take_in x (y ∷ ys) s h =
    ap (absorb (y ∷ ys)) (take_in_byte x s (omega (arith, h)))
    ∙ absorb-take_in y ys (opened x s) (omega (arith, h, length-append s.buffer (x ∷ [])))
    ∙ take_in_assoc x (y ∷ ys) s

pub take_in-lt :
    (xs : List ℕ) (s : Hasher)
    → length s.buffer + length xs ≤ 64
    → length (take_in xs s).buffer < 64
unfolding take_in
take_in-lt xs s h = ground (arith, length-append s.buffer xs)

pub absorb-lt : (xs : List ℕ) (s : Hasher) → length s.buffer < 64 → length (absorb xs s).buffer < 64
unfolding absorb
absorb-lt [] s h = h
absorb-lt (x ∷ xs) s h =
    absorb-lt xs (take_in (x ∷ []) s) (take_in-lt (x ∷ []) s (omega (arith, h)))

room-suc :
    (x : ℕ) (bytes : List ℕ) (s : Hasher)
    → length s.buffer < 64
    → room s (x ∷ bytes) ≡ suc (room s (x ∷ bytes) - 1)
room-suc x bytes s l = omega (arith, l)

absorb-piece :
    (x m : ℕ) (bytes : List ℕ) (s : Hasher)
    → m ≤ length bytes
    → length s.buffer + suc m ≤ 64
    → absorb (drop m bytes) (take_in (x ∷ take m bytes) s) ≡ absorb (x ∷ bytes) s
absorb-piece x m bytes s h l =
    ap (absorb (drop m bytes))
      (sym (absorb-take_in x (take m bytes) s (omega (arith, l, length-take m bytes h))))
    ∙ sym (absorb-append (x ∷ take m bytes) (drop m bytes) s)
    ∙ ap (λ ys. absorb (x ∷ ys) s) (take-drop m bytes)

-- The loop of update absorbs the bytes, and has enough rounds.
pub update_loop-absorb :
    (rounds : ℕ) (bytes : List ℕ) (s : Hasher)
    → length bytes ≤ rounds
    → length s.buffer < 64
    → update_loop rounds bytes s ≡ absorb bytes s
unfolding update_loop
update_loop-absorb rounds [] s h l = unfold absorb in refl
update_loop-absorb zero (x ∷ bytes) s h l = absurd (omega (arith, h))
update_loop-absorb (suc rounds) (x ∷ bytes) s h l =
    subst
      (λ n.
        update_loop rounds (drop n (x ∷ bytes)) (take_in (take n (x ∷ bytes)) s)
        ≡ absorb (x ∷ bytes) s)
      (sym (room-suc x bytes s l))
      (update_loop-absorb rounds (drop (room s (x ∷ bytes) - 1) bytes)
          (take_in (x ∷ take (room s (x ∷ bytes) - 1) bytes) s)
          (omega (arith, h, length-drop (room s (x ∷ bytes) - 1) bytes))
          (take_in-lt (x ∷ take (room s (x ∷ bytes) - 1) bytes) s
            (omega (arith, l, length-take (room s (x ∷ bytes) - 1) bytes (omega (arith, l)))))
        ∙ absorb-piece x (room s (x ∷ bytes) - 1) bytes s (omega (arith, l)) (omega (arith, l)))
