-- ===== src/Engine/Submit.antt =====
-- `submit_order` of Src_Simulation/src/matching_engine.cpp.
pub mod Cases
pub mod Accounts
use stock_market_trading_sim.Common.{
  ℕ, ◌+◌, ◌%◌, ◌^◌, Bool, true, false, not, ◌&&◌, Option, none, some, List, [], if◌then◌else◌,
}
use stock_market_trading_sim.Common.Int.{pos, leb_ℤ}
use stock_market_trading_sim.Double.{Double}
use stock_market_trading_sim.Types.{
  OrderId, Side, Order, OrderRequest, RejectReason, SubmitResult, is_market, release_band_contains,
}
use stock_market_trading_sim.Metrics.{order_submitted, order_rejected, order_queued, fetch_add}
use stock_market_trading_sim.Notification.{Event}
use stock_market_trading_sim.Registry.{add, started}
use stock_market_trading_sim.Engine.{
  MatchingEngine, Readings, publish, count, symbol_exists, last_price,
}
use stock_market_trading_sim.Engine.Orders.{passes_risk_check, build_order}
use stock_market_trading_sim.Engine.Matching.{match_and_settle}

-- What a client lacks whose order fails the risk check.
abbrev pub lacking : Side → RejectReason
lacking Side.buy = RejectReason.insufficient_cash
lacking Side.sell = RejectReason.insufficient_holdings

module _ {P : Type 0} ⦃d : Double P⦄ where
  abbrev pub rejected : OrderId → RejectReason → SubmitResult P
  rejected id reason = record {
    accepted = false;
    queued = false;
    reject_reason = some reason;
    order_id = id;
    filled_quantity = 0;
    trades = [];
  }

  abbrev pub waits : OrderId → SubmitResult P
  waits id = record {
    accepted = true;
    queued = true;
    reject_reason = none;
    order_id = id;
    filled_quantity = 0;
    trades = [];
  }

  -- Why a request is refused, if it is: the checks in their order.
  unfoldable pub refusal : OrderRequest P → MatchingEngine P → Option RejectReason
  refusal r e =
      if leb_ℤ r.quantity (pos 0)
      then some RejectReason.quantity_not_positive
      else if not (is_market r.kind) && d.le r.price (d.ratio 0 1)
      then some RejectReason.price_required
      else if not (symbol_exists r.symbol e)
      then some RejectReason.unknown_symbol
      else if not (passes_risk_check r.client r.side r.kind r.symbol r.quantity r.price e)
      then some (lacking r.side)
      else none

  -- Taking the next id, `next_order_id_.fetch_add(1)`, and counting the submission.
  abbrev pub take_id : MatchingEngine P → MatchingEngine P
  take_id e = record (count order_submitted e) { next_order_id = fetch_add e.next_order_id 1 }

  unfoldable pub reject :
      OrderId → OrderRequest P → RejectReason → MatchingEngine P → SubmitResult P × MatchingEngine P
  reject id r reason e = (
    rejected id reason,
    publish (Event.order_rejected_event id r.client reason) (count order_rejected e),
  )

  unfoldable pub enqueue :
      OrderRequest P → Order P → MatchingEngine P → SubmitResult P × MatchingEngine P
  enqueue r o e =
      let counted = count order_queued e in
      (
        waits o.id,
        publish (Event.order_queued_event o.id r.client r.symbol)
            (record counted { registry = add o counted.registry }),
      )

  -- What follows the checks: match at once, or wait.
  unfoldable pub admit :
      Readings
      → OrderRequest P
      → OrderId
      → MatchingEngine P
      → Option (SubmitResult P × MatchingEngine P)
  admit clock r id e =
      let o = build_order r id clock.now in
      if started clock.now o && release_band_contains o (last_price o.symbol e)
      then match_and_settle clock o e
      else some (enqueue r o e)

  unfoldable pub submit_order :
      Readings → OrderRequest P → MatchingEngine P → Option (SubmitResult P × MatchingEngine P)
  submit_order clock r e =
      let taken = take_id e in
      elim (refusal r taken) [
        | some reason ↦ some (reject e.next_order_id r reason taken)
        | none ↦ admit clock r e.next_order_id taken
      ]
