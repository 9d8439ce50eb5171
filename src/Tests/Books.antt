-- ===== src/Tests/Books.antt =====
-- The order book at a sample book.
use stock_market_trading_sim.Common.{◌≡◌, refl, some, All, take, map, arith}
use stock_market_trading_sim.Common.Int.{pos}
use stock_market_trading_sim.Double.Cents.{num, cents_double, Cents-IsOrdered}
use stock_market_trading_sim.Types.{Side}
use stock_market_trading_sim.OrderBook.{
  match_order, match_incoming_buy, match_levels, fill_queue, push_back, out_of_reach,
}
use stock_market_trading_sim.OrderBook.Cancel.{cancel, remove_order}
use stock_market_trading_sim.OrderBook.Cancellation.{outcome, cancel-resting_orders}
use stock_market_trading_sim.OrderBook.Views.{snapshot, best_bid, best_ask, resting_orders}
use stock_market_trading_sim.OrderBook.Fills.{traded}
use stock_market_trading_sim.OrderBook.Invariant.{IsValid}
use stock_market_trading_sim.OrderBook.Validity.{match_order-IsValid}
use stock_market_trading_sim.OrderBook.Conservation.{Conserves, match_order-Conserves}
use stock_market_trading_sim.OrderBook.Priority.{Sweeps, entries, match_order-Sweeps}
use stock_market_trading_sim.OrderBook.Trades.{IsFair, match_order-IsFair}
use stock_market_trading_sim.OrderBook.Depth.{level_of, snapshot-take}
use stock_market_trading_sim.Tests.Samples.{stamps, book, taking}

book-IsValid : IsValid book
book-IsValid = ground arith

-- Nine wanted at 104: seven are bought at 100, and two rest at 104.
partial_fill :
    let r = match_order stamps taking book in
    (traded r.0 ≡ 7) × (best_bid r.1 ≡ some (num (pos 104))) × (best_ask r.1 ≡ some (num (pos 105)))
unfolding match_order match_incoming_buy match_levels fill_queue out_of_reach push_back best_bid
    best_ask
partial_fill = (refl, refl, refl)

match_order-IsValid_example : IsValid (match_order stamps taking book).1
match_order-IsValid_example = match_order-IsValid Cents-IsOrdered stamps taking book book-IsValid

match_order-Sweeps_example : Sweeps stamps taking book Side.buy (match_order stamps taking book)
match_order-Sweeps_example = match_order-Sweeps stamps taking book book-IsValid

match_order-Conserves_example : Conserves taking book (match_order stamps taking book)
match_order-Conserves_example = match_order-Conserves stamps taking book

match_order-IsFair_example :
    All (IsFair "ACME" taking (entries book.asks)) (match_order stamps taking book).0
match_order-IsFair_example = match_order-IsFair stamps taking book book-IsValid

cancel-resting_orders_example :
    let r = cancel 2 book in
    (r.0, resting_orders r.1) ≡ outcome (resting_orders book) (remove_order 2 (resting_orders book))
cancel-resting_orders_example = cancel-resting_orders 2 book

snapshot-take_example :
    ((snapshot 1 book).bids ≡ map level_of (take 1 book.bids))
    × ((snapshot 1 book).asks ≡ map level_of (take 1 book.asks))
snapshot-take_example = snapshot-take 1 book
