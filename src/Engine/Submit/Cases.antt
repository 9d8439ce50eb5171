-- ===== src/Engine/Submit/Cases.antt =====
-- The three ways in which `submit_order` of Src_Simulation/src/matching_engine.cpp ends.
use stock_market_trading_sim.Common.{
  ◌≡◌, Bool, true, false, ◌&&◌, Option, none, some, arith, Bool-cases, Option-cases, inl, inr,
}
use stock_market_trading_sim.Common.Keys.{symbol_key}
use stock_market_trading_sim.Common.Maps.{lookup}
use stock_market_trading_sim.Double.{Double}
use stock_market_trading_sim.Types.{
  OrderRequest, Order, RejectReason, SubmitResult, release_band_contains,
}
use stock_market_trading_sim.OrderBook.{OrderBook}
use stock_market_trading_sim.Registry.{started}
use stock_market_trading_sim.Engine.{MatchingEngine, Readings, last_price}
use stock_market_trading_sim.Engine.Orders.{build_order}
use stock_market_trading_sim.Engine.Matching.{match_in_book, match_and_settle}
use stock_market_trading_sim.Engine.Submit.{refusal, take_id, reject, enqueue, admit, submit_order}

module _ {P : Type 0} ⦃d : Double P⦄ where
  -- A request that is not refused names a symbol with a book.
  refusal-symbol_exists :
      (r : OrderRequest P) (e : MatchingEngine P)
      → refusal r e ≡ none
      → (book : OrderBook P) × (lookup r.symbol e.books ≡ some book)
  unfolding refusal
  refusal-symbol_exists r e h = elim (Option-cases (lookup r.symbol e.books)) [
    | inl k ↦ absurd (ground (arith, k))
    | inr (book, k) ↦ (book, k)
  ]

  -- The order that a submission builds, under the next id.
  abbrev pub fresh_order : Readings → OrderRequest P → MatchingEngine P → Order P
  fresh_order clock r e = build_order r e.next_order_id clock.now

  abbrev pub ready : Readings → OrderRequest P → MatchingEngine P → Bool
  ready clock r e =
      let o = fresh_order clock r e in
      started clock.now o && release_band_contains o (last_price r.symbol e)

  pub submit_order_cases {κ} :
      (Q : Option (SubmitResult P × MatchingEngine P) → Type κ) (clock : Readings)
      (r : OrderRequest P) (e : MatchingEngine P)
      → ((reason : RejectReason)
          → refusal r (take_id e) ≡ some reason
          → Q (some (reject e.next_order_id r reason (take_id e))))
      → ((book : OrderBook P)
          → refusal r (take_id e) ≡ none
          → lookup r.symbol e.books ≡ some book
          → ready clock r e ≡ true
          → Q (some (match_in_book clock (fresh_order clock r e) book (take_id e))))
      → (refusal r (take_id e) ≡ none
          → ready clock r e ≡ false
          → Q (some (enqueue r (fresh_order clock r e) (take_id e))))
      → Q (submit_order clock r e)
  unfolding submit_order admit match_and_settle build_order last_price
  submit_order_cases Q clock r e on_reject on_match on_wait =
      elim (Option-cases (refusal r (take_id e))) [
        | inr (reason, k) ↦ rw (k, submit_order) (on_reject reason k)
        | inl k ↦ elim (Bool-cases (ready clock r e)) [
          | inr n ↦ rw (k, submit_order, n) (on_wait k n)
          | inl y ↦
              let (book, b) = refusal-symbol_exists r (take_id e) k in
              rw (k, submit_order, y, b, match_and_settle) (on_match book k b y)
        ]
      ]
