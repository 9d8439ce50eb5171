-- ===== src/Persistence/Restart.antt =====
-- What the second pass of load restores (Src_Simulation/src/net/persistence.cpp).
use stock_market_trading_sim.Common.{◌≡◌, ap, ◌∙◌, ◌||◌, [], arith, is_some, All-imp, if◌then◌else◌}
use stock_market_trading_sim.Common.Int.{pos, ◌+ℤ◌, int_laws}
use stock_market_trading_sim.Common.Keys.{symbol_key, id_key}
use stock_market_trading_sim.Common.Maps.{
  Map, lookup, get_or, Distinct, inserts, lookup-inserts, inserts-Distinct,
}
use stock_market_trading_sim.Double.{Double}
use stock_market_trading_sim.Types.{ClientId, Symbol}
use stock_market_trading_sim.Portfolio.{Portfolio, holding}
use stock_market_trading_sim.Engine.{MatchingEngine, symbol_exists}
use stock_market_trading_sim.Engine.Reach.{Reach}
use stock_market_trading_sim.Engine.Uniqueness.{AreMaps, Reach-IsTidy}
use stock_market_trading_sim.Persistence.{
  cash_of, all_pending, saved_values, restore_cash, restore_holdings, restore_prices,
  restore_engine,
}
use stock_market_trading_sim.Persistence.Balances.{
  cash_at, held_at, granted, AllKnown, restore_holdings-held, restore_holdings-cash, moneyed,
  restore_cash-lookup,
}
use stock_market_trading_sim.Persistence.Prices.{
  restore_prices-last_prices, restore_prices-portfolios, restore_prices-symbols,
  restore_cash-prices, restore_holdings-prices,
}
use stock_market_trading_sim.Persistence.Grants.{
  lookup-cash_of, cash_of-Distinct, granted-all_pending, all_pending-AllKnown,
}

module _ {P : Type 0} ⦃d : Double P⦄ where
  -- The engine `e'`, restored from what `e` was saved as, in place of `e0`.
  pub record IsRestored (e e0 e' : MatchingEngine P) : Type 0 where
    pub cash : (c : ClientId) → cash_at c e'.portfolios ≡ cash_at c e.portfolios
    pub held : (c : ClientId) (s : Symbol) → held_at c s e'.portfolios ≡ held_at c s e.portfolios
    pub prices :
        (s : Symbol)
        → lookup s e'.last_prices ≡ (
            if is_some (lookup s e.last_prices)
            then lookup s e.last_prices
            else lookup s e0.last_prices)
    pub symbols :
        (s : Symbol) → symbol_exists s e' ≡ (is_some (lookup s e.last_prices) || symbol_exists s e0)

  -- The state behind the CASH lines.
  module _ (m : Map ClientId (Portfolio P)) (e0 : MatchingEngine P) where
    abbrev paid : MatchingEngine P
    paid = restore_cash (inserts (cash_of m) []) e0

    paid-lookup :
        AreMaps m
        → e0.portfolios ≡ []
        → (c : ClientId) → lookup c paid.portfolios ≡ moneyed (cash_at c m)
    unfolding lookup
    paid-lookup (h, hs) none_yet c =
        restore_cash-lookup c (inserts (cash_of m) []) e0
        ∙ ground (
          arith,
          lookup-inserts c (cash_of m) [] (cash_of-Distinct m h),
          lookup-cash_of c m,
          ap (lookup c) none_yet,
        )

    paid-cash :
        AreMaps m → e0.portfolios ≡ [] → (c : ClientId) → cash_at c paid.portfolios ≡ cash_at c m
    paid-cash maps none_yet c = ground (arith, paid-lookup maps none_yet c)

    paid-held :
        AreMaps m
        → e0.portfolios ≡ []
        → (c : ClientId) (s : Symbol) → held_at c s paid.portfolios ≡ pos 0
    unfolding get_or holding lookup
    paid-held maps none_yet c s = ground (arith, paid-lookup maps none_yet c, cash_at c m)

    paid-AllKnown : AreMaps m → e0.portfolios ≡ [] → AllKnown (all_pending m) paid.portfolios
    paid-AllKnown maps none_yet =
        All-imp _ _ (all_pending m)
          (λ h. λ k. ground (arith, paid-lookup maps none_yet h.client_id, k))
          (all_pending-AllKnown m)

  found-again :
      (s : Symbol) (prices : Map Symbol P)
      → Distinct prices
      → lookup s (inserts prices []) ≡ lookup s prices
  unfolding lookup
  found-again s prices h = lookup-inserts s prices [] h ∙ ground (arith, lookup s prices)

  abbrev settled : MatchingEngine P → MatchingEngine P → MatchingEngine P
  settled e e0 = restore_holdings (all_pending e.portfolios) (paid e.portfolios e0)

  settled-last_prices : (e e0 : MatchingEngine P) → (settled e e0).last_prices ≡ e0.last_prices
  settled-last_prices e e0 =
      (restore_holdings-prices (all_pending e.portfolios) (paid e.portfolios e0)).0
      ∙ (restore_cash-prices (inserts (cash_of e.portfolios) []) e0).0

  settled-books : (e e0 : MatchingEngine P) → (settled e e0).books ≡ e0.books
  settled-books e e0 =
      (restore_holdings-prices (all_pending e.portfolios) (paid e.portfolios e0)).1
      ∙ (restore_cash-prices (inserts (cash_of e.portfolios) []) e0).1

  settled-held :
      (e e0 : MatchingEngine P)
      → AreMaps e.portfolios
      → e0.portfolios ≡ []
      → (c : ClientId) (s : Symbol)
      → held_at c s (settled e e0).portfolios ≡ held_at c s e.portfolios
  settled-held e e0 maps none_yet c s =
      restore_holdings-held c s (all_pending e.portfolios) (paid e.portfolios e0)
      ∙ ap (λ n. n +ℤ granted c s (all_pending e.portfolios))
          (paid-held e.portfolios e0 maps none_yet c s)
      ∙ omega (int_laws)
      ∙ granted-all_pending c s e.portfolios maps

  -- The engine behind all the lines.
  abbrev restarted : MatchingEngine P → MatchingEngine P → MatchingEngine P
  restarted e e0 = restore_prices (inserts e.last_prices []) (settled e e0)

  restarted-IsRestored :
      (e e0 : MatchingEngine P)
      → AreMaps e.portfolios
      → Distinct e.last_prices
      → e0.portfolios ≡ []
      → IsRestored e e0 (restarted e e0)
  unfolding lookup
  restarted-IsRestored e e0 maps unique none_yet =
      let same = restore_prices-portfolios (inserts e.last_prices []) (settled e e0) in
      record {
        cash = λ c.
            ap (cash_at c) same
            ∙ restore_holdings-cash c (all_pending e.portfolios) (paid e.portfolios e0)
                (paid-AllKnown e.portfolios e0 maps none_yet)
            ∙ paid-cash e.portfolios e0 maps none_yet c;
        held = λ c. λ s. ap (held_at c s) same ∙ settled-held e e0 maps none_yet c s;
        prices = λ s.
            ap (lookup s) (
              restore_prices-last_prices (inserts e.last_prices []) (settled e e0)
              ∙ ap (inserts (inserts e.last_prices [])) (settled-last_prices e e0))
            ∙ lookup-inserts s (inserts e.last_prices []) e0.last_prices
                (inserts-Distinct e.last_prices [] tt)
            ∙ ap (λ o. if is_some o then o else lookup s e0.last_prices)
                (found-again s e.last_prices unique);
        symbols = λ s.
            restore_prices-symbols s (inserts e.last_prices []) (settled e e0)
            ∙ ap (λ o. is_some o || symbol_exists s (settled e e0))
                (found-again s e.last_prices unique)
            ∙ ap (λ b. is_some (lookup s e.last_prices) || is_some (lookup s b))
                (settled-books e e0);
      }

  -- In every state that public calls of the engine reach: if the engine that is loaded into has no
  -- portfolio, the second pass of load, on the values that a save of the state writes, gives back the
  -- cash and the holdings of every client and the price of every symbol, where the other prices stay
  -- and exactly the symbols with a saved price or a book before have a book.
  pub restore_engine-IsRestored :
      (e e0 : MatchingEngine P)
      → Reach e
      → e0.portfolios ≡ []
      → IsRestored e e0 (restore_engine (saved_values e) e0)
  unfolding saved_values
  restore_engine-IsRestored e e0 reached none_yet =
      restarted-IsRestored e e0 (Reach-IsTidy reached).0 (Reach-IsTidy reached).1 none_yet
