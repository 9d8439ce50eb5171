-- ===== src/Bots/Steps.antt =====
-- The steps of the bots (Src_Simulation/src/bot.cpp) as calls of the engine.
use stock_market_trading_sim.Common.{
  ℕ, zero, suc, ◌-◌, ◌<◌, ◌≡◌, refl, Option, none, some, List, [], ◌∷◌, length, arith, eqb, either,
  Option-cases, inl, inr,
}
use stock_market_trading_sim.Double.{Double}
use stock_market_trading_sim.Types.{OrderId, Symbol, Side, OrderRequest, SubmitResult}
use stock_market_trading_sim.MarketData.{MarketData}
use stock_market_trading_sim.Engine.{MatchingEngine, Readings}
use stock_market_trading_sim.Engine.Submit.{submit_order}
use stock_market_trading_sim.Engine.Submit.Accounts.{submit_order-Accounts}
use stock_market_trading_sim.Engine.Reach.{Reach, next, submits, cancels}
use stock_market_trading_sim.Bots.{
  Random, IsUniform, Trader, nth_symbol, pick_symbol, reference_price, engine_of, with_random,
  noise_trade, noise_step,
}
use stock_market_trading_sim.Bots.Momentum.{
  Histories, protected, with_histories, follow, momentum_trade, momentum_step,
}
use stock_market_trading_sim.Bots.MarketMaker.{
  Quotes, withdraw, withdraw_quotes, sold, quote_sell, quote_both, make_market, maker_step,
}

nth_symbol-cases :
    (n : ℕ) (symbols : List Symbol)
    → n < length symbols
    → (s : Symbol) × (nth_symbol n symbols ≡ some s)
nth_symbol-cases n [] h = absurd (omega (arith, h))
nth_symbol-cases zero (s ∷ symbols) h = (s, refl)
nth_symbol-cases (suc n) (s ∷ symbols) h = nth_symbol-cases n symbols (omega (arith, h))

-- A step returns, and what it leaves has a property.
abbrev pub Ends : {A : Type 0} → (A → Type 0) → Option A → Type 0
Ends Q none = ⊥
Ends Q (some a) = Q a

module _ {P : Type 0} ⦃d : Double P⦄ where
  -- A submission in a reachable state returns, and leaves a reachable state.
  pub submit_order-returned {κ} :
      (Q : Option (SubmitResult P × MatchingEngine P) → Type κ) (clock : Readings)
      (r : OrderRequest P) (e : MatchingEngine P)
      → Reach e
      → ((res : SubmitResult P) (e' : MatchingEngine P) → Reach e' → Q (some (res, e')))
      → Q (submit_order clock r e)
  submit_order-returned Q clock r e h f = elim (Option-cases (submit_order clock r e)) [
    | inl k ↦ absurd (rw k at (submit_order-Accounts clock r e))
    | inr ((res, e'), k) ↦ rw k (f res e' (next h (submits clock r res k)))
  ]

  withdraw-Reach :
      (s : Symbol) (id : OrderId) (e : MatchingEngine P) → Reach e → Reach (withdraw s id e)
  unfolding withdraw
  withdraw-Reach s id e h = either Reach (eqb id 0) h (next h (cancels s id))

  withdraw_quotes-Reach :
      (q : Quotes) (e : MatchingEngine P) → Reach e → Reach (withdraw_quotes q e)
  unfolding withdraw_quotes
  withdraw_quotes-Reach q e h =
      withdraw-Reach q.last_quote_symbol q.last_sell_order _
        (withdraw-Reach q.last_quote_symbol q.last_buy_order e h)

module _ {G P : Type 0} ⦃d : Double P⦄ where
  -- A bot that trades in some symbol picks one.
  pub pick_symbol-some :
      (random : Random G P)
      → IsUniform random
      → (bot : Trader P) (g : G) → 0 < length bot.symbols
      → (s : Symbol) × ((pick_symbol random bot g).0 ≡ some s)
  unfolding pick_symbol
  pick_symbol-some random uniform bot g h =
      nth_symbol-cases _ bot.symbols
        (omega (arith, h, (uniform 0 (length bot.symbols - 1) g (omega arith)).1))

  abbrev pub Reach2 : G × MatchingEngine P → Type 0
  Reach2 r = Reach r.1

  abbrev pub Reach3 : {S : Type 0} → G × S × MatchingEngine P → Type 0
  Reach3 r = Reach r.2

  traded-Reach :
      (g : G) (clock : Readings) (r : OrderRequest P) (e : MatchingEngine P)
      → Reach e
      → Ends Reach2 (with_random g (engine_of (submit_order clock r e)))
  traded-Reach g clock r e h =
      submit_order-returned (λ o. Ends Reach2 (with_random g (engine_of o))) clock r e h
        (λ res. λ e'. λ k. k)

  stopped-Reach :
      (g : G) (hs : Histories P) (clock : Readings) (r : OrderRequest P) (e : MatchingEngine P)
      → Reach e
      → Ends Reach3 (with_histories g hs (engine_of (submit_order clock r e)))
  stopped-Reach g hs clock r e h =
      submit_order-returned (λ o. Ends Reach3 (with_histories g hs (engine_of o))) clock r e h
        (λ res. λ e'. λ k. k)

  protected-Reach :
      (g : G) (hs : Histories P) (clock later : Readings) (r stop : OrderRequest P)
      (e : MatchingEngine P)
      → Reach e
      → Ends Reach3
          (with_histories g hs (protected later stop (engine_of (submit_order clock r e))))
  protected-Reach g hs clock later r stop e h =
      submit_order-returned
        (λ o. Ends Reach3 (with_histories g hs (protected later stop (engine_of o)))) clock r e h
        (λ res. λ e'. λ k. stopped-Reach g hs later stop e' k)

  sold-Reach :
      (n : ℕ) (s : Symbol) (buy : OrderId) (g : G) (clock : Readings) (r : OrderRequest P)
      (e : MatchingEngine P)
      → Reach e
      → Ends Reach3 (sold n s buy g (submit_order clock r e))
  sold-Reach n s buy g clock r e h =
      submit_order-returned (λ o. Ends Reach3 (sold n s buy g o)) clock r e h (λ res. λ e'. λ k. k)

  quote_sell-Reach :
      (random : Random G P) (bot : Trader P) (later : Readings) (s : Symbol) (ask : P) (n : ℕ)
      (g : G) (clock : Readings) (r : OrderRequest P) (e : MatchingEngine P)
      → Reach e
      → Ends Reach3 (quote_sell random bot later s ask n g (submit_order clock r e))
  unfolding quote_sell
  quote_sell-Reach random bot later s ask n g clock r e h =
      submit_order-returned (λ o. Ends Reach3 (quote_sell random bot later s ask n g o)) clock r e h
        (λ res. λ e'. λ k. sold-Reach _ s _ _ later _ e' k)

  noise_trade-Reach :
      (random : Random G P) (bot : Trader P) (clock : Readings) (market : MarketData P)
      (symbol : Symbol) (g : G) (e : MatchingEngine P)
      → Reach e
      → Ends Reach2 (noise_trade random bot clock market (some symbol) g e)
  unfolding noise_trade
  noise_trade-Reach random bot clock market symbol g e h =
      either (Ends Reach2) (d.le (reference_price symbol e market) (d.ratio 0 1)) h
        (traded-Reach _ clock _ e h)

  follow-Reach :
      (random : Random G P) (bot : Trader P) (clock later : Readings) (symbol : Symbol)
      (reference : P) (trend : Option Side) (hs : Histories P) (g : G) (e : MatchingEngine P)
      → Reach e
      → Ends Reach3 (follow random bot clock later symbol reference trend hs g e)
  unfolding follow
  follow-Reach random bot clock later symbol reference none hs g e h = h
  follow-Reach random bot clock later symbol reference (some side) hs g e h =
      protected-Reach _ hs clock later _ _ e h

  pub momentum_trade-Reach :
      (random : Random G P) (bot : Trader P) (clock later : Readings) (market : MarketData P)
      (symbol : Symbol) (hs : Histories P) (g : G) (e : MatchingEngine P)
      → Reach e
      → Ends Reach3 (momentum_trade random bot clock later market (some symbol) hs g e)
  unfolding momentum_trade
  momentum_trade-Reach random bot clock later market symbol hs g e h =
      either (Ends Reach3) (d.le (reference_price symbol e market) (d.ratio 0 1)) h
        (follow-Reach random bot clock later symbol _ _ _ g e h)

  quote_both-Reach :
      (random : Random G P) (bot : Trader P) (clock later : Readings) (spread : P) (symbol : Symbol)
      (mid : P) (g : G) (e : MatchingEngine P)
      → Reach e
      → Ends Reach3 (quote_both random bot clock later spread symbol mid g e)
  unfolding quote_both
  quote_both-Reach random bot clock later spread symbol mid g e h =
      quote_sell-Reach random bot later symbol _ _ _ clock _ e h

  make_market-Reach :
      (random : Random G P) (bot : Trader P) (clock later : Readings) (market : MarketData P)
      (spread : P) (symbol : Symbol) (g : G) (e : MatchingEngine P)
      → Reach e
      → Ends Reach3 (make_market random bot clock later market spread (some symbol) g e)
  unfolding make_market
  make_market-Reach random bot clock later market spread symbol g e h =
      either (Ends Reach3) (d.le (reference_price symbol e market) (d.ratio 0 1)) h
        (quote_both-Reach random bot clock later spread symbol _ g e h)

  -- If a bot trades in some symbol, and uniform integers lie between their bounds, then in every state that public calls of the engine reach, a step of each kind of bot returns and leaves such a state.
  pub bots-Reach :
      (random : Random G P) (bot : Trader P) (clock later : Readings) (market : MarketData P)
      (hs : Histories P) (spread : P) (q : Quotes) (g : G) {e : MatchingEngine P}
      → IsUniform random
      → 0 < length bot.symbols
      → Reach e
      → Ends Reach2 (noise_step random bot clock market g e)
        × Ends Reach3 (momentum_step random bot clock later market hs g e)
        × Ends Reach3 (maker_step random bot clock later market spread q g e)
  unfolding noise_step momentum_step maker_step
  bots-Reach random bot clock later market hs spread q g {e} uniform some_symbol h =
      let (s, k) = pick_symbol-some random uniform bot g some_symbol in
      rw (k, noise_step, momentum_step, maker_step)
        (
          noise_trade-Reach random bot clock market s _ e h,
          momentum_trade-Reach random bot clock later market s hs _ e h,
          make_market-Reach random bot clock later market spread s _ _
              (withdraw_quotes-Reach q e h),
        )
