-- ===== src/Protocol/Stream.antt =====
-- Whole transfers over a stream socket (Src_Simulation/src/net/protocol.cpp).
use stock_market_trading_sim.Common.{
  ℕ, zero, suc, ◌-◌, ◌<◌, ◌≤◌, ◌≡◌, refl, sym, ap, ◌∙◌, some, List, [], ◌∷◌, ◌++◌, take, drop,
  length, length-append, length-drop, take-drop, arith,
}
use mathlib.Core.List.{append_assoc, append-nil}
use stock_market_trading_sim.Protocol.{
  Socket, Transfer, recv_round, recv_exact, send_round, send_exact,
}

-- What the operating system documents of a stream socket that stays connected: `recv` gives at least one and at most the wanted number of the bytes that
-- arrive, in order, while there are any, and `send` takes at least one of the bytes.
pub record IsStream (S : Type 0) ⦃os : Socket S⦄ (arriving written : S → List ℕ) : Type 0 where
  pub reads :
      (k : ℕ) (s : S)
      → 0 < length (arriving s)
      → (b : ℕ) × (bs : List ℕ) × (s' : S) × (os.recv (suc k) s ≡ (some (b ∷ bs), s'))
        × (length bs ≤ k)
        × (arriving s ≡ b ∷ bs ++ arriving s')
  pub writes :
      (b : ℕ) (bs : List ℕ) (s : S)
      → (n : ℕ) × (s' : S) × (os.send (b ∷ bs) s ≡ (some (suc n), s'))
        × (n ≤ length bs)
        × (written s' ≡ written s ++ b ∷ take n bs)

first_or : ℕ → List ℕ → ℕ
first_or d [] = d
first_or d (x ∷ xs) = x

behind : List ℕ → List ℕ
behind [] = []
behind (x ∷ xs) = xs

-- A shorter front of a list is a front of a longer one.
fronts :
    (xs ys ws rest : List ℕ)
    → xs ++ ys ≡ ws ++ rest
    → length xs ≤ length ws
    → (more : List ℕ) × (ws ≡ xs ++ more) × (ys ≡ more ++ rest)
unfolding first_or behind
fronts [] ys ws rest e h = (ws, refl, e)
fronts (x ∷ xs) ys [] rest e h = absurd (omega (arith, h))
fronts (x ∷ xs) ys (w ∷ ws) rest e h =
    let (more, k, j) = fronts xs ys ws rest (ap behind e) (omega (arith, h)) in
    (more, ap (λ l. w ∷ l) k ∙ ap (λ y. y ∷ xs ++ more) (sym (ap (first_or 0) e)), j)

module _ {S : Type 0} ⦃os : Socket S⦄ (arriving written : S → List ℕ)
    (stream : IsStream S arriving written) where
  pub recv_exact_lem :
      (rounds k : ℕ) (got wanted rest : List ℕ) (s : S)
      → k ≤ rounds
      → length wanted ≡ k
      → arriving s ≡ wanted ++ rest
      → (s' : S) × (recv_exact rounds k got s ≡ (Transfer.done (got ++ wanted), s'))
        × (arriving s' ≡ rest)
  unfolding recv_exact
  recv_exact_lem rounds zero got [] rest s h l a =
      (s, ap (λ g. (Transfer.done g, s)) (sym (append-nil got)), a)
  recv_exact_lem rounds zero got (w ∷ wanted) rest s h l a = absurd (omega (arith, l))
  recv_exact_lem zero (suc k) got wanted rest s h l a = absurd (omega (arith, h))
  recv_exact_lem (suc rounds) (suc k) got [] rest s h l a = absurd (omega (arith, l))
  recv_exact_lem (suc rounds) (suc k) got (w ∷ wanted) rest s h l a =
      let (b, bs, s1, r, c, e) = stream.reads k s (rw a (omega arith)) in
      let (more, f, g) =
        fronts (b ∷ bs) (arriving s1) (w ∷ wanted) rest (sym e ∙ a) (omega (arith, c, l)) in
      let (s2, q, t) =
        recv_exact_lem rounds (k - length bs) (got ++ b ∷ bs) more rest s1 (omega (arith, h))
          (omega (arith, ap length f, l, length-append bs more)) g in
      (
        s2,
        ap (recv_round k got (recv_exact rounds)) r
            ∙ q
            ∙ ap (λ x. (Transfer.done x, s2))
                (append_assoc got (b ∷ bs) more ∙ ap (λ x. got ++ x) (sym f)),
        t,
      )

  pub send_exact_lem :
      (rounds : ℕ) (bs : List ℕ) (s : S)
      → length bs ≤ rounds
      → (s' : S) × (send_exact rounds bs s ≡ (Transfer.done tt, s'))
        × (written s' ≡ written s ++ bs)
  unfolding send_exact
  send_exact_lem rounds [] s h = (s, refl, sym (append-nil (written s)))
  send_exact_lem zero (b ∷ bs) s h = absurd (omega (arith, h))
  send_exact_lem (suc rounds) (b ∷ bs) s h =
      let (n, s1, r, c, e) = stream.writes b bs s in
      let (s2, q, t) = send_exact_lem rounds (drop n bs) s1 (omega (arith, h, length-drop n bs)) in
      (
        s2,
        ap (send_round (b ∷ bs) (send_exact rounds)) r ∙ q,
        t
            ∙ ap (λ x. x ++ drop n bs) e
            ∙ append_assoc (written s) (b ∷ take n bs) (drop n bs)
            ∙ ap (λ x. written s ++ b ∷ x) (take-drop n bs),
      )
