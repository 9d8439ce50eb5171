-- ===== src/Tests/Engines.antt =====
-- The engine from its start: a symbol, two clients, and two orders that trade.
use stock_market_trading_sim.Common.{◌≡◌, refl, Option, none, some}
use stock_market_trading_sim.Common.Int.{pos, negsuc, ◌+ℤ◌, ◌-ℤ◌, ◌*ℤ◌}
use stock_market_trading_sim.Common.Keys.{symbol_key, id_key}
use stock_market_trading_sim.Common.Maps.{lookup, insert, emplace, get_or}
use stock_market_trading_sim.Double.Cents.{Cents, num, cents_double, Cents-IsOrdered}
use stock_market_trading_sim.Types.{
  Side, OrderKind, OrderRequest, SubmitResult, release_band_contains,
}
use stock_market_trading_sim.Portfolio.{holding, add_holding, sub_holding}
use stock_market_trading_sim.Engine.{
  MatchingEngine, new_engine, register_symbol, ensure_client, grant_initial_holdings,
  portfolio_snapshot, last_price, settle, settle_portfolios, mark_dirty,
}
use stock_market_trading_sim.Engine.Submit.{submit_order, refusal, admit, reject, enqueue}
use stock_market_trading_sim.Engine.Submit.Accounts.{Accounts, Returns, submit_order-Accounts}
use stock_market_trading_sim.Engine.Orders.{passes_risk_check, build_order}
use stock_market_trading_sim.Engine.Matching.{
  match_and_settle, match_in_book, post_trade, post_trades, count_volume,
}
use stock_market_trading_sim.OrderBook.{
  new_book, match_order, match_incoming_buy, match_incoming_sell, match_levels, fill_queue,
  out_of_reach, push_back,
}
use stock_market_trading_sim.Metrics.{record_latency, place}
use stock_market_trading_sim.Engine.Books.{BooksValid}
use stock_market_trading_sim.Engine.Reach.{
  Reach, registers, ensures, grants, submits, start, next, Reach-BooksValid,
}
use stock_market_trading_sim.Tests.Samples.{clock, request}

abbrev pub opened : MatchingEngine Cents
opened = ensure_client 2 (num (pos 100000)) (
    grant_initial_holdings 1 "ACME" (pos 50)
      (ensure_client 1 (num (pos 0)) (register_symbol "ACME" (num (pos 100)) new_engine)))

pub opened-Reach : Reach opened
opened-Reach =
    next
      (next (next (next start (registers "ACME" (num (pos 100)))) (ensures 1 (num (pos 0))))
        (grants 1 "ACME" (pos 50)))
      (ensures 2 (num (pos 100000)))

abbrev answer_of : Option (SubmitResult Cents × MatchingEngine Cents) → Option (SubmitResult Cents)
answer_of none = none
answer_of (some (r, e)) = some r

abbrev state_of : Option (SubmitResult Cents × MatchingEngine Cents) → MatchingEngine Cents
state_of none = opened
state_of (some (r, e)) = e

-- A submission that returns is a step to the state that it returns.
submits-Reach :
    (e : MatchingEngine Cents) (m : Option (SubmitResult Cents × MatchingEngine Cents))
    (r : OrderRequest Cents)
    → submit_order clock r e ≡ m
    → Reach e
    → Reach (state_of m)
submits-Reach e none r k h = opened-Reach
submits-Reach e (some (res, e')) r k h = next h (submits clock r res k)

abbrev offer : OrderRequest Cents
offer = request 1 Side.sell OrderKind.limit (pos 10) 101

abbrev purchase : OrderRequest Cents
purchase = request 2 Side.buy OrderKind.limit (pos 15) 102

abbrev offered : MatchingEngine Cents
offered = state_of (submit_order clock offer opened)

abbrev traded_state : MatchingEngine Cents
traded_state = state_of (submit_order clock purchase offered)

traded-Reach : Reach traded_state
traded-Reach =
    submits-Reach offered _ purchase refl (submits-Reach opened _ offer refl opened-Reach)

-- Ten shares change hands at the resting price, and five stay wanted.
holdings_after :
    (holding "ACME" (portfolio_snapshot 1 traded_state) ≡ pos 40)
    × (holding "ACME" (portfolio_snapshot 2 traded_state) ≡ pos 10)
unfolding submit_order refusal passes_risk_check admit reject enqueue build_order match_and_settle
    match_in_book post_trades post_trade count_volume settle settle_portfolios mark_dirty
    match_order match_incoming_buy match_incoming_sell match_levels fill_queue out_of_reach
    push_back release_band_contains last_price new_engine register_symbol ensure_client
    grant_initial_holdings portfolio_snapshot holding add_holding sub_holding new_book lookup insert
    emplace get_or record_latency place ◌+ℤ◌ ◌-ℤ◌ ◌*ℤ◌
holdings_after = (refl, refl)

-- A client with fifty shares offers them twice, since resting orders reserve nothing, and is left with
-- fewer than none when both are sold.
abbrev whole_offer : OrderRequest Cents
whole_offer = request 1 Side.sell OrderKind.limit (pos 50) 101

abbrev offered_twice : MatchingEngine Cents
offered_twice =
    state_of (submit_order clock whole_offer (state_of (submit_order clock whole_offer opened)))

abbrev oversold_state : MatchingEngine Cents
oversold_state =
    state_of (submit_order clock (request 2 Side.buy OrderKind.limit (pos 100) 101) offered_twice)

oversold : holding "ACME" (portfolio_snapshot 1 oversold_state) ≡ negsuc 49
unfolding submit_order refusal passes_risk_check admit reject enqueue build_order match_and_settle
    match_in_book post_trades post_trade count_volume settle settle_portfolios mark_dirty
    match_order match_incoming_buy match_incoming_sell match_levels fill_queue out_of_reach
    push_back release_band_contains last_price new_engine register_symbol ensure_client
    grant_initial_holdings portfolio_snapshot holding add_holding sub_holding new_book lookup insert
    emplace get_or record_latency place ◌+ℤ◌ ◌-ℤ◌ ◌*ℤ◌
oversold = refl

Reach-BooksValid_example : BooksValid traded_state.books
Reach-BooksValid_example = Reach-BooksValid Cents-IsOrdered traded-Reach

submit_order-Accounts_example :
    Returns (Accounts purchase offered) (submit_order clock purchase offered)
submit_order-Accounts_example = submit_order-Accounts clock purchase offered
