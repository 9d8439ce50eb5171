-- ===== src/Persistence/Balances.antt =====
-- The cash and the holdings of the portfolios that come back
-- (Src_Simulation/src/net/persistence.cpp).
use stock_market_trading_sim.Common.{
  ◌≡◌, refl, ap, ◌∙◌, Bool, true, false, Option, none, some, List, [], ◌∷◌, arith, is_some, All,
  All-imp, if◌then◌else◌, Bool-cases, inl, inr,
}
use stock_market_trading_sim.Common.Int.{ℤ, pos, ◌+ℤ◌, int_laws, +ℤ_assoc}
use stock_market_trading_sim.Common.Keys.{◌==◌, symbol_key, id_key}
use stock_market_trading_sim.Common.Maps.{Map, lookup, get_or, lookup-insert, lookup-emplace}
use stock_market_trading_sim.Double.{Double}
use stock_market_trading_sim.Types.{ClientId, Symbol}
use stock_market_trading_sim.Portfolio.{Portfolio, no_portfolio, holding, add_holding}
use stock_market_trading_sim.Engine.{MatchingEngine, ensure_client, grant_initial_holdings}
use stock_market_trading_sim.Engine.Holdings.{holding-add}
use stock_market_trading_sim.Persistence.{
  PendingHolding, restore_cash, restore_holding, restore_holdings,
}

-- What a list of holdings grants a client of a symbol.
abbrev pub granted : ClientId → Symbol → List PendingHolding → ℤ
granted c s [] = pos 0
granted c s (h ∷ hs) =
    if h.client_id == c
    then (if h.symbol == s then h.quantity +ℤ granted c s hs else granted c s hs)
    else granted c s hs

grant_shift :
    (b b' : Bool) (held quantity rest : ℤ)
    → (if b then (if b' then held +ℤ quantity else held) else held) +ℤ rest
      ≡ held +ℤ (if b then (if b' then quantity +ℤ rest else rest) else rest)
grant_shift true true held quantity rest = +ℤ_assoc held quantity rest
grant_shift true false held quantity rest = refl
grant_shift false b' held quantity rest = refl

module _ {P : Type 0} ⦃d : Double P⦄ where
  -- The cash of a client, if it has a portfolio, and what it holds of a symbol.
  abbrev pub cash_at : ClientId → Map ClientId (Portfolio P) → Option P
  cash_at c m = elim (lookup c m) [ none ↦ none | some p ↦ some p.cash ]

  abbrev pub held_at : ClientId → Symbol → Map ClientId (Portfolio P) → ℤ
  held_at c s m = holding s (get_or c no_portfolio m)

  restore_holding-lookup :
      (c : ClientId) (h : PendingHolding) (e : MatchingEngine P)
      → lookup c (restore_holding h e).portfolios ≡ (
          if h.client_id == c
          then some (add_holding h.symbol h.quantity (get_or h.client_id no_portfolio e.portfolios))
          else lookup c e.portfolios)
  unfolding ensure_client grant_initial_holdings get_or
  restore_holding-lookup c h e =
      let ensured = (ensure_client h.client_id (d.ratio 0 1) e).portfolios in
      ground (
        arith,
        lookup-insert h.client_id c
            (add_holding h.symbol h.quantity (get_or h.client_id no_portfolio ensured)) ensured,
        lookup-emplace h.client_id h.client_id no_portfolio e.portfolios,
        lookup-emplace h.client_id c no_portfolio e.portfolios,
        id_key.same_iff h.client_id c,
        id_key.same_iff h.client_id h.client_id,
      )

  restore_holding-held :
      (c : ClientId) (s : Symbol) (h : PendingHolding) (e : MatchingEngine P)
      → held_at c s (restore_holding h e).portfolios ≡ (
          if h.client_id == c
          then (if h.symbol == s
              then held_at c s e.portfolios +ℤ h.quantity
              else held_at c s e.portfolios)
          else held_at c s e.portfolios)
  unfolding get_or
  restore_holding-held c s h e = elim (Bool-cases (h.client_id == c)) [
    | inr k ↦ ground (arith, restore_holding-lookup c h e, k)
    | inl k ↦ ground (
      arith,
      restore_holding-lookup c h e,
      holding-add s h.symbol h.quantity (get_or h.client_id no_portfolio e.portfolios),
      ap (λ x. held_at x s e.portfolios) ((id_key.same_iff h.client_id c).0 k),
      k,
    )
  ]

  restore_holding-cash :
      (c : ClientId) (h : PendingHolding) (e : MatchingEngine P)
      → is_some (lookup h.client_id e.portfolios) ≡ true
      → cash_at c (restore_holding h e).portfolios ≡ cash_at c e.portfolios
  unfolding get_or add_holding
  restore_holding-cash c h e k =
      ground (arith, restore_holding-lookup c h e, id_key.same_iff h.client_id c, k)

  -- The holdings of a restored list add up.
  pub restore_holdings-held :
      (c : ClientId) (s : Symbol) (hs : List PendingHolding) (e : MatchingEngine P)
      → held_at c s (restore_holdings hs e).portfolios ≡ held_at c s e.portfolios +ℤ granted c s hs
  unfolding restore_holdings
  restore_holdings-held c s [] e = omega int_laws
  restore_holdings-held c s (h ∷ hs) e =
      restore_holdings-held c s hs (restore_holding h e)
      ∙ ap (λ n. n +ℤ granted c s hs) (restore_holding-held c s h e)
      ∙ grant_shift (h.client_id == c) (h.symbol == s) (held_at c s e.portfolios) h.quantity
          (granted c s hs)

  -- The clients of a list of holdings have portfolios.
  abbrev pub AllKnown : List PendingHolding → Map ClientId (Portfolio P) → Type 0
  AllKnown hs m = All (λ h. is_some (lookup h.client_id m) ≡ true) hs

  restore_holding-AllKnown :
      (hs : List PendingHolding) (h : PendingHolding) (e : MatchingEngine P)
      → AllKnown hs e.portfolios
      → AllKnown hs (restore_holding h e).portfolios
  restore_holding-AllKnown hs h e =
      All-imp _ _ hs (λ x. λ k. ground (arith, restore_holding-lookup x.client_id h e, k))

  pub restore_holdings-cash :
      (c : ClientId) (hs : List PendingHolding) (e : MatchingEngine P)
      → AllKnown hs e.portfolios
      → cash_at c (restore_holdings hs e).portfolios ≡ cash_at c e.portfolios
  unfolding restore_holdings
  restore_holdings-cash c [] e k = refl
  restore_holdings-cash c (h ∷ hs) e (k, ks) =
      restore_holdings-cash c hs (restore_holding h e) (restore_holding-AllKnown hs h e ks)
      ∙ restore_holding-cash c h e k

  -- A portfolio of the cash alone.
  abbrev pub moneyed : Option P → Option (Portfolio P)
  moneyed none = none
  moneyed (some cash) = some (record { cash = cash; holdings = [] })

  pub restore_cash-lookup :
      (c : ClientId) (entries : Map ClientId P) (e : MatchingEngine P)
      → lookup c (restore_cash entries e).portfolios ≡ (
          if is_some (lookup c e.portfolios)
          then lookup c e.portfolios
          else moneyed (lookup c entries))
  unfolding restore_cash lookup ensure_client
  restore_cash-lookup c [] e = ground arith
  restore_cash-lookup c ((own, cash) ∷ entries) e =
      restore_cash-lookup c entries (ensure_client own cash e)
      ∙ ground (
        arith,
        lookup-emplace own c (record { cash = cash; holdings = [] }) e.portfolios,
        id_key.same_iff own c,
      )
