-- ===== src/Bots/Memory.antt =====
-- What `MarketMakerBot` remembers (Src_Simulation/src/bot.cpp).
use stock_market_trading_sim.Common.{
  ℕ, ◌<◌, ◌≡◌, ◌⊎◌, inl, inr, refl, ◌∙◌, subst, ◌&&◌, Option, some, length, arith, eqb, ltb, either,
  Option-cases,
}
use stock_market_trading_sim.Common.Keys.{symbol_key}
use stock_market_trading_sim.Common.Maps.{lookup}
use stock_market_trading_sim.Double.{Double}
use stock_market_trading_sim.Types.{OrderId, Symbol, OrderRequest, SubmitResult}
use stock_market_trading_sim.MarketData.{MarketData}
use stock_market_trading_sim.Metrics.{fetch_add}
use stock_market_trading_sim.Engine.{MatchingEngine, Readings}
use stock_market_trading_sim.Engine.Submit.{submit_order}
use stock_market_trading_sim.Engine.Submit.Accounts.{Accounts, submit_order-Accounts}
use stock_market_trading_sim.Engine.Release.{cancel_order}
use stock_market_trading_sim.Bots.{Random, IsUniform, Trader, pick_symbol, reference_price}
use stock_market_trading_sim.Bots.MarketMaker.{
  Quotes, remembered, withdraw, withdraw_quotes, sold, quote_sell, quote_both, make_market,
  maker_step,
}
use stock_market_trading_sim.Bots.Steps.{Ends, pick_symbol-some}

module _ {P : Type 0} ⦃d : Double P⦄ where
  cancel_order-next_order_id :
      (s : Symbol) (id : OrderId) (e : MatchingEngine P)
      → (cancel_order s id e).1.next_order_id ≡ e.next_order_id
  unfolding cancel_order
  cancel_order-next_order_id s id e = elim (Option-cases (lookup s e.books)) [
    | inl k ↦ rw (k, cancel_order) refl
    | inr (b, k) ↦ rw (k, cancel_order) refl
  ]

  withdraw-next_order_id :
      (s : Symbol) (id : OrderId) (e : MatchingEngine P)
      → (withdraw s id e).next_order_id ≡ e.next_order_id
  unfolding withdraw
  withdraw-next_order_id s id e =
      either (λ (x : MatchingEngine P). x.next_order_id ≡ e.next_order_id) (eqb id 0) refl
        (cancel_order-next_order_id s id e)

  withdraw_quotes-next_order_id :
      (q : Quotes) (e : MatchingEngine P) → (withdraw_quotes q e).next_order_id ≡ e.next_order_id
  unfolding withdraw_quotes
  withdraw_quotes-next_order_id q e =
      withdraw-next_order_id q.last_quote_symbol q.last_sell_order _
      ∙ withdraw-next_order_id q.last_quote_symbol q.last_buy_order e

  remembered-own :
      (n : ℕ) (res : SubmitResult P) → (remembered n res ≡ 0) ⊎ (remembered n res ≡ res.order_id)
  unfolding remembered
  remembered-own n res =
      either (λ x. (x ≡ 0) ⊎ (x ≡ res.order_id)) (res.accepted && ltb res.filled_quantity n)
        (inr refl) (inl refl)

  submit_order-accounted :
      (Q : Option (SubmitResult P × MatchingEngine P) → Type 0) (clock : Readings)
      (r : OrderRequest P) (e : MatchingEngine P)
      → ((res : SubmitResult P) (e' : MatchingEngine P) → Accounts r e res e' → Q (some (res, e')))
      → Q (submit_order clock r e)
  submit_order-accounted Q clock r e f = elim (Option-cases (submit_order clock r e)) [
    | inl k ↦ absurd (rw k at (submit_order-Accounts clock r e))
    | inr ((res, e'), k) ↦ rw k (f res e' (rw k at (submit_order-Accounts clock r e)))
  ]

-- A remembered id is that of an order from `n` on, or none.
abbrev pub IsOwn : OrderId → OrderId → Type 0
IsOwn n id = (id ≡ 0) ⊎ (id ≡ n)

-- The quotes after a step that began with the next order id `n`.
abbrev pub AreOwn : OrderId → Quotes → Type 0
AreOwn n q = IsOwn n q.last_buy_order × IsOwn (fetch_add n 1) q.last_sell_order

module _ {G P : Type 0} ⦃d : Double P⦄ where
  abbrev pub OwnQuotes : OrderId → G × Quotes × MatchingEngine P → Type 0
  OwnQuotes n r = AreOwn n r.1

  sold-OwnQuotes :
      (n : OrderId) (quantity : ℕ) (s : Symbol) (buy : OrderId) (g : G) (clock : Readings)
      (r : OrderRequest P) (e : MatchingEngine P)
      → IsOwn n buy
      → e.next_order_id ≡ fetch_add n 1
      → Ends (OwnQuotes n) (sold quantity s buy g (submit_order clock r e))
  sold-OwnQuotes n quantity s buy g clock r e b k =
      submit_order-accounted (λ o. Ends (OwnQuotes n) (sold quantity s buy g o)) clock r e
        (λ res. λ e'. λ a. (b, ground (arith, remembered-own quantity res, a.order_id, k)))

  quote_sell-OwnQuotes :
      (random : Random G P) (bot : Trader P) (later : Readings) (s : Symbol) (ask : P)
      (quantity : ℕ) (g : G) (clock : Readings) (r : OrderRequest P) (e : MatchingEngine P)
      → Ends
          (OwnQuotes e.next_order_id)
          (quote_sell random bot later s ask quantity g (submit_order clock r e))
  unfolding quote_sell
  quote_sell-OwnQuotes random bot later s ask quantity g clock r e =
      submit_order-accounted
        (λ o. Ends (OwnQuotes e.next_order_id) (quote_sell random bot later s ask quantity g o))
        clock r e
        (λ res. λ e'. λ a.
          sold-OwnQuotes e.next_order_id _ s _ _ later _ e'
            (ground (arith, remembered-own quantity res, a.order_id)) a.next_id)

  make_market-OwnQuotes :
      (random : Random G P) (bot : Trader P) (clock later : Readings) (market : MarketData P)
      (spread : P) (s : Symbol) (g : G) (e : MatchingEngine P)
      → Ends
          (OwnQuotes e.next_order_id)
          (make_market random bot clock later market spread (some s) g e)
  unfolding make_market quote_both
  make_market-OwnQuotes random bot clock later market spread s g e =
      either (Ends (OwnQuotes e.next_order_id)) (d.le (reference_price s e market) (d.ratio 0 1))
        (inl refl, inl refl) (quote_sell-OwnQuotes random bot later s _ _ _ clock _ e)

  -- If a bot trades in some symbol and uniform integers lie between their bounds, a step of a market maker returns, and the two ids that it remembers for its next cancellations are 0 or the ids that the engine gave to the buy and the sell order of this step, whatever it remembered before.
  pub maker_step-OwnQuotes :
      (random : Random G P) (bot : Trader P) (clock later : Readings) (market : MarketData P)
      (spread : P) (q : Quotes) (g : G) (e : MatchingEngine P)
      → IsUniform random
      → 0 < length bot.symbols
      → Ends (OwnQuotes e.next_order_id) (maker_step random bot clock later market spread q g e)
  unfolding maker_step
  maker_step-OwnQuotes random bot clock later market spread q g e uniform some_symbol =
      let (s, k) = pick_symbol-some random uniform bot g some_symbol in
      rw (k, maker_step)
        (subst
          (λ n. Ends (OwnQuotes n) (
            make_market random bot clock later market spread (some s) (pick_symbol random bot g).1
              (withdraw_quotes q e)))
          (withdraw_quotes-next_order_id q e)
          (make_market-OwnQuotes random bot clock later market spread s _ (withdraw_quotes q e)))
