-- ===== src/Engine/Holdings.antt =====
-- Settlement moves shares between portfolios and makes none
-- (`settle` of Src_Simulation/src/matching_engine.cpp).
use stock_market_trading_sim.Common.{
  ◌≡◌, refl, ap, sym, ◌∙◌, [], ◌∷◌, arith, value_or, Bool-cases, inl, inr, if◌then◌else◌,
}
use stock_market_trading_sim.Common.Int.{
  ℤ, pos, ◌+ℤ◌, ◌-ℤ◌, int_laws, +ℤ_assoc, +ℤ_shift, +ℤ_zero, -ℤ_zero,
}
use stock_market_trading_sim.Common.Keys.{◌==◌, id_key, symbol_key}
use stock_market_trading_sim.Common.Maps.{Map, lookup, insert, get_or, lookup-insert}
use stock_market_trading_sim.Double.{Double}
use stock_market_trading_sim.Types.{ClientId, Symbol, Trade}
use stock_market_trading_sim.Portfolio.{Portfolio, no_portfolio, holding, add_holding, sub_holding}
use stock_market_trading_sim.Engine.{settle_portfolios}

-- The shares of `s` that a change of `n` shares of `t` moves.
abbrev moved : Symbol → Symbol → ℤ → ℤ
moved s t n = if t == s then n else pos 0

module _ {P : Type 0} where
  -- All that the clients hold of a symbol.
  abbrev pub total_holding : Symbol → Map ClientId (Portfolio P) → ℤ
  total_holding s [] = pos 0
  total_holding s ((c, p) ∷ m) = holding s p +ℤ total_holding s m

  -- A portfolio that takes another's place changes the total by the difference.
  total_holding-insert :
      (s : Symbol) (c : ClientId) (p : Portfolio P) (fallback : Portfolio P)
      (m : Map ClientId (Portfolio P))
      → holding s fallback ≡ pos 0
      → total_holding s (insert c p m) +ℤ holding s (get_or c fallback m)
        ≡ total_holding s m +ℤ holding s p
  unfolding insert get_or lookup
  total_holding-insert s c p fallback [] h = rw h (omega int_laws)
  total_holding-insert s c p fallback ((j, q) ∷ m) h = elim (Bool-cases (j == c)) [
    | inl e ↦ rw e (omega int_laws)
    | inr e ↦ rw e (
        +ℤ_assoc (holding s q) _ _
        ∙ ap (◌+ℤ◌ (holding s q)) (total_holding-insert s c p fallback m h)
        ∙ sym (+ℤ_assoc (holding s q) _ _))
  ]

  pub holding-add :
      (s t : Symbol) (n : ℤ) (p : Portfolio P)
      → holding s (add_holding t n p) ≡ (if t == s then holding s p +ℤ n else holding s p)
  unfolding holding add_holding get_or
  holding-add s t n p = ground (
    arith,
    lookup-insert t s (value_or (lookup t p.holdings) (pos 0) +ℤ n) p.holdings,
    symbol_key.same_iff t s,
  )

  holding-sub :
      (s t : Symbol) (n : ℤ) (p : Portfolio P)
      → holding s (sub_holding t n p) ≡ (if t == s then holding s p -ℤ n else holding s p)
  unfolding holding sub_holding get_or
  holding-sub s t n p = ground (
    arith,
    lookup-insert t s (value_or (lookup t p.holdings) (pos 0) -ℤ n) p.holdings,
    symbol_key.same_iff t s,
  )

  -- Paying and buying, earning and selling.
  holding-bought :
      (s t : Symbol) (n : ℤ) (p : Portfolio P) (cash : P)
      → holding s (add_holding t n (record p { cash = cash })) ≡ holding s p +ℤ moved s t n
  holding-bought s t n p cash =
      holding-add s t n (record p { cash = cash })
      ∙ unfold holding in ground (arith, Bool-cases (t == s), +ℤ_zero (holding s p))

  holding-sold :
      (s t : Symbol) (n : ℤ) (p : Portfolio P) (cash : P)
      → holding s (sub_holding t n (record p { cash = cash })) ≡ holding s p -ℤ moved s t n
  holding-sold s t n p cash =
      holding-sub s t n (record p { cash = cash })
      ∙ unfold holding in ground (arith, Bool-cases (t == s), -ℤ_zero (holding s p))

module _ {P : Type 0} ⦃d : Double P⦄ where
  holding-empty :
      (s : Symbol) (cash : P) → holding s (record { cash = cash; holdings = [] }) ≡ pos 0
  unfolding holding get_or lookup
  holding-empty s cash = refl

  pub settle_portfolios-total :
      (s : Symbol) (t : Trade P) (m : Map ClientId (Portfolio P))
      → total_holding s (settle_portfolios t m) ≡ total_holding s m
  unfolding settle_portfolios
  settle_portfolios-total s t m =
      let notional = d.mul (d.of_ℤ (pos t.quantity)) t.price in
      let buyer = get_or t.buyer no_portfolio m in
      let paid = record buyer { cash = d.sub buyer.cash notional } in
      let bought = add_holding t.symbol (pos t.quantity) paid in
      let m' = insert t.buyer bought m in
      let seller = get_or t.seller no_portfolio m' in
      let earned = record seller { cash = d.add seller.cash notional } in
      let sold = sub_holding t.symbol (pos t.quantity) earned in
      +ℤ_shift (total_holding s m) (total_holding s m') (total_holding s (insert t.seller sold m'))
        (holding s buyer) (holding s bought) (holding s seller) (holding s sold)
        (moved s t.symbol (pos t.quantity))
        (total_holding-insert s t.buyer bought no_portfolio m (holding-empty s (d.ratio 0 1)))
        (total_holding-insert s t.seller sold no_portfolio m' (holding-empty s (d.ratio 0 1)))
        (holding-bought s t.symbol (pos t.quantity) buyer (d.sub buyer.cash notional))
        (holding-sold s t.symbol (pos t.quantity) seller (d.add seller.cash notional))
