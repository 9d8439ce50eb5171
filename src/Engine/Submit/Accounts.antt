-- ===== src/Engine/Submit/Accounts.antt =====
-- What `submit_order` of Src_Simulation/src/matching_engine.cpp answers, publishes and counts.
use stock_market_trading_sim.Common.{
  ℕ, ◌+◌, ◌≡◌, refl, Bool, true, false, Option, none, some, ◌∷◌, ◌++◌, arith, length, map,
}
use stock_market_trading_sim.Double.{Double}
use stock_market_trading_sim.Types.{OrderRequest, RejectReason, Symbol, SubmitResult}
use stock_market_trading_sim.OrderBook.Fills.{traded}
use stock_market_trading_sim.Metrics.{MetricsRegistry, fetch_add}
use stock_market_trading_sim.Notification.{Event}
use stock_market_trading_sim.Engine.{MatchingEngine, Readings}
use stock_market_trading_sim.Engine.Orders.{build_order}
use stock_market_trading_sim.Engine.Matching.{match_in_book}
use stock_market_trading_sim.Engine.Holdings.{total_holding}
use stock_market_trading_sim.Engine.Frames.{word, match_in_book-MatchesIn}
use stock_market_trading_sim.Engine.Submit.{take_id, reject, enqueue, submit_order}
use stock_market_trading_sim.Engine.Submit.Cases.{fresh_order, submit_order_cases}

-- The answers that have been counted.
abbrev pub answered : MetricsRegistry → ℕ
answered m = m.orders_accepted + m.orders_rejected + m.orders_queued

module _ {P : Type 0} ⦃d : Double P⦄ where
  -- The event that reports an answer: rejected, queued or accepted.
  abbrev pub report_of : Option RejectReason → Bool → OrderRequest P → SubmitResult P → Event P
  report_of (some reason) queued r res = Event.order_rejected_event res.order_id r.client reason
  report_of none true r res = Event.order_queued_event res.order_id r.client r.symbol
  report_of none false r res = Event.order_accepted_event res.order_id r.client r.symbol

  pub record Accounts (r : OrderRequest P) (e : MatchingEngine P) (res : SubmitResult P)
      (e' : MatchingEngine P) : Type 0 where
    pub order_id : res.order_id ≡ e.next_order_id
    pub next_id : e'.next_order_id ≡ fetch_add e.next_order_id 1
    pub accepted_iff : res.accepted ≡ (elim res.reject_reason [ none ↦ true | some reason ↦ false ])
    pub filled : res.filled_quantity ≡ traded res.trades
    pub holdings : (s : Symbol) → total_holding s e'.portfolios ≡ total_holding s e.portfolios
    pub events :
        e'.events
        ≡ e.events
          ++ (report_of res.reject_reason res.queued r res ∷ map Event.trade_event res.trades)
    pub submitted : e'.metrics.orders_submitted ≡ fetch_add e.metrics.orders_submitted 1
    pub one_answer : word (answered e'.metrics) ≡ word (answered e.metrics + 1)
    pub executed :
        word e'.metrics.trades_executed ≡ word (e.metrics.trades_executed + length res.trades)
    pub volume :
        word e'.metrics.volume_traded ≡ word (e.metrics.volume_traded + res.filled_quantity)

  abbrev pub Returns :
      (SubmitResult P → MatchingEngine P → Type 0)
      → Option (SubmitResult P × MatchingEngine P)
      → Type 0
  Returns Q none = ⊥
  Returns Q (some (res, e')) = Q res e'

  -- A submission always returns, never throws, and accounts for itself. It takes the next order id;
  -- it is refused exactly when it gives a reason; the filled quantity is the sum over its trades; for
  -- every symbol the shares held by all clients together stay the same; it publishes one event with
  -- its answer and then one for each trade; and it counts one submission, one answer, its trades and
  -- their volume (the counters are 64-bit words).
  pub submit_order-Accounts :
      (clock : Readings) (r : OrderRequest P) (e : MatchingEngine P)
      → Returns (Accounts r e) (submit_order clock r e)
  unfolding reject enqueue build_order match_in_book
  submit_order-Accounts clock r e =
      submit_order_cases (Returns (Accounts r e)) clock r e
        (λ reason k. record {
          order_id = refl;
          next_id = refl;
          accepted_iff = refl;
          filled = refl;
          holdings = λ s. refl;
          events = refl;
          submitted = refl;
          one_answer = omega arith;
          executed = omega arith;
          volume = omega arith;
        })
        (λ book k b y.
          let m = match_in_book-MatchesIn clock (fresh_order clock r e) book (take_id e) in
          record {
            order_id = refl;
            next_id = m.next_order_id;
            accepted_iff = refl;
            filled = m.filled;
            holdings = m.holdings;
            events = m.events;
            submitted = m.submitted;
            one_answer = omega (arith, m.accepted, m.rejected, m.queued);
            executed = m.executed;
            volume = m.volume;
          })
        (λ k n. record {
          order_id = refl;
          next_id = refl;
          accepted_iff = refl;
          filled = refl;
          holdings = λ s. refl;
          events = refl;
          submitted = refl;
          one_answer = omega arith;
          executed = omega arith;
          volume = omega arith;
        })
