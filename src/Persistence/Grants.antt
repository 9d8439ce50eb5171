-- ===== src/Persistence/Grants.antt =====
-- What the saved holdings grant, and to whom (Src_Simulation/src/net/persistence.cpp).
use stock_market_trading_sim.Common.{
  ◌≡◌, refl, sym, ap, ◌∙◌, inl, inr, true, false, List, [], ◌∷◌, ◌++◌, arith, is_some, All-append,
  All-imp, Bool-cases, either,
}
use stock_market_trading_sim.Common.Int.{
  ℤ, pos, ◌+ℤ◌, same_ℤ, eq_of_parts, int_laws, +ℤ_assoc, +ℤ_zero,
}
use stock_market_trading_sim.Common.Keys.{◌==◌, symbol_key, id_key}
use stock_market_trading_sim.Common.Maps.{Map, lookup, get_or, Distinct}
use stock_market_trading_sim.Double.{Double}
use stock_market_trading_sim.Types.{ClientId, Symbol}
use stock_market_trading_sim.Portfolio.{Portfolio, holding}
use stock_market_trading_sim.Engine.Uniqueness.{AreMaps}
use stock_market_trading_sim.Persistence.{PendingHolding, pending_of, cash_of, all_pending}
use stock_market_trading_sim.Persistence.Balances.{cash_at, held_at, granted, AllKnown}

granted-append :
    (c : ClientId) (s : Symbol) (xs ys : List PendingHolding)
    → granted c s (xs ++ ys) ≡ granted c s xs +ℤ granted c s ys
granted-append c s [] ys = omega int_laws
granted-append c s (h ∷ xs) ys = elim (Bool-cases (h.client_id == c)) [
  | inr k ↦ rw k (granted-append c s xs ys)
  | inl k ↦ elim (Bool-cases (h.symbol == s)) [
    | inr j ↦ rw (k, j) (granted-append c s xs ys)
    | inl j ↦
        rw (k, j)
          (ap (◌+ℤ◌ h.quantity) (granted-append c s xs ys)
            ∙ sym (+ℤ_assoc h.quantity (granted c s xs) (granted c s ys)))
  ]
]

zero_of_same : (n : ℤ) → same_ℤ n (pos 0) ≡ true → n ≡ pos 0
zero_of_same n h = ground (arith, eq_of_parts n (pos 0))

-- The lines of another client grant nothing.
granted-other :
    (c c' : ClientId) (s : Symbol) (hs : Map Symbol ℤ)
    → (c' == c) ≡ false
    → granted c s (pending_of c' hs) ≡ pos 0
granted-other c c' s [] k = refl
granted-other c c' s ((t, n) ∷ hs) k = elim (Bool-cases (same_ℤ n (pos 0))) [
  | inl z ↦ rw z (granted-other c c' s hs k)
  | inr z ↦ rw (z, k) (granted-other c c' s hs k)
]

granted-own :
    (c c' : ClientId) (s : Symbol) (hs : Map Symbol ℤ)
    → (c' == c) ≡ true
    → Distinct hs
    → granted c s (pending_of c' hs) ≡ get_or s (pos 0) hs
unfolding get_or lookup
granted-own c c' s [] k h = refl
granted-own c c' s ((t, n) ∷ hs) k (h, d) = elim (Bool-cases (same_ℤ n (pos 0))) [
  | inl z ↦
      rw z (ground (arith, granted-own c c' s hs k d, zero_of_same n z, h, symbol_key.same_iff t s))
  | inr z ↦
      rw z (ground (arith, granted-own c c' s hs k d, h, symbol_key.same_iff t s, k, +ℤ_zero n))
]

module _ {P : Type 0} where
  pub lookup-cash_of :
      ⦃d : Double P⦄ (c : ClientId) (m : Map ClientId (Portfolio P))
      → lookup c (cash_of m) ≡ cash_at c m
  unfolding lookup
  lookup-cash_of c [] = refl
  lookup-cash_of c ((own, p) ∷ m) = ground (arith, lookup-cash_of c m)

  pub cash_of-Distinct :
      ⦃d : Double P⦄ (m : Map ClientId (Portfolio P)) → Distinct m → Distinct (cash_of m)
  unfolding lookup
  cash_of-Distinct [] h = tt
  cash_of-Distinct ((c, p) ∷ m) (h, d) =
      (ground (arith, lookup-cash_of c m, h), cash_of-Distinct m d)

module _ {P : Type 0} ⦃d : Double P⦄ where
  pub granted-all_pending :
      (c : ClientId) (s : Symbol) (m : Map ClientId (Portfolio P))
      → AreMaps m
      → granted c s (all_pending m) ≡ held_at c s m
  unfolding get_or lookup holding
  granted-all_pending c s [] h = refl
  granted-all_pending c s ((own, p) ∷ m) ((h, d), (dh, ds)) =
      granted-append c s (pending_of own p.holdings) (all_pending m)
      ∙ ap (◌+ℤ◌ (granted c s (pending_of own p.holdings))) (granted-all_pending c s m (d, ds))
      ∙ elim (Bool-cases (own == c)) [
        | inr k ↦
            rw k
              (ap (λ n. n +ℤ held_at c s m) (granted-other c own s p.holdings k) ∙ omega int_laws)
        | inl k ↦ ground (
          arith,
          granted-own c own s p.holdings k dh,
          h,
          id_key.same_iff own c,
          +ℤ_zero (get_or s (pos 0) p.holdings),
          k,
        )
      ]

  -- A client of a line has a portfolio.
  pending_of-AllKnown :
      (c : ClientId) (hs : Map Symbol ℤ) (m : Map ClientId (Portfolio P))
      → is_some (lookup c m) ≡ true
      → AllKnown (pending_of c hs) m
  pending_of-AllKnown c [] m k = tt
  pending_of-AllKnown c ((s, n) ∷ hs) m k =
      either (λ l. AllKnown l m) (same_ℤ n (pos 0)) (pending_of-AllKnown c hs m k)
        (k, pending_of-AllKnown c hs m k)

  pub all_pending-AllKnown : (m : Map ClientId (Portfolio P)) → AllKnown (all_pending m) m
  unfolding lookup
  all_pending-AllKnown [] = tt
  all_pending-AllKnown ((c, p) ∷ m) =
      All-append _ (pending_of c p.holdings) (all_pending m)
        (pending_of-AllKnown c p.holdings ((c, p) ∷ m) (ground (arith, id_key.same_iff c c)))
        (All-imp _ _ (all_pending m) (λ h. λ k. ground (arith, k)) (all_pending-AllKnown m))
