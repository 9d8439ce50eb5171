-- ===== src/OrderBook/Conservation.antt =====
-- No share is lost or made up by `OrderBook::match` (Src_Simulation/src/order_book.cpp).
use stock_market_trading_sim.Common.{
  ℕ, ◌+◌, ◌≤◌, ◌≡◌, Bool, List, [], ◌∷◌, ◌++◌, arith, sum_by-append, if◌then◌else◌,
}
use stock_market_trading_sim.Double.{Double}
use stock_market_trading_sim.Types.{TimePoint, Side, Order, Trade, is_market}
use stock_market_trading_sim.OrderBook.{
  Levels, OrderBook, match_levels, push_back, better, match_order, match_order_cases,
  match_incoming_buy, match_incoming_sell,
}
use stock_market_trading_sim.OrderBook.Views.{orders_of, resting_orders, order_quantity}
use stock_market_trading_sim.OrderBook.Fills.{
  traded, total, match_levels-left, match_levels-Balances,
}

module _ {P : Type 0} ⦃d : Double P⦄ where
  total-push_back :
      (before : P → P → Bool) (o : Order P) (levels : Levels P)
      → total (orders_of (push_back before o levels)) ≡ total (orders_of levels) + o.quantity
  unfolding push_back orders_of
  total-push_back before o [] = omega arith
  total-push_back before o ((p, queue) ∷ levels) = ground (
    arith,
    total-push_back before o levels,
    sum_by-append order_quantity queue (orders_of levels),
    sum_by-append order_quantity queue (orders_of (push_back before o levels)),
    sum_by-append order_quantity (queue ++ (o ∷ [])) (orders_of levels),
    sum_by-append order_quantity queue (o ∷ []),
  )

  pub total-resting :
      (book : OrderBook P)
      → total (resting_orders book) ≡ total (orders_of book.bids) + total (orders_of book.asks)
  unfolding resting_orders
  total-resting book = sum_by-append order_quantity (orders_of book.bids) (orders_of book.asks)

  -- The trades of a call, and the book after it.
  pub record Conserves (incoming : Order P) (before : OrderBook P)
      (r : List (Trade P) × OrderBook P) : Type 0 where
    pub traded_le : traded r.0 ≤ incoming.quantity
    pub total_eq :
        total (resting_orders r.1)
          + traded r.0
          + (if is_market incoming.kind then 0 else traded r.0)
        ≡ total (resting_orders before) + (if is_market incoming.kind then 0 else incoming.quantity)

  -- Matching conserves shares: the order trades at most its quantity; what it trades comes off the
  -- resting orders; and what a limit order does not trade rests in the book, so that the resting
  -- total grows by its quantity less twice what was traded. A market order leaves nothing.
  pub match_order-Conserves :
      (stamp : ℕ → TimePoint) (incoming : Order P) (book : OrderBook P)
      → Conserves incoming book (match_order stamp incoming book)
  unfolding match_incoming_buy match_incoming_sell
  match_order-Conserves stamp incoming book =
      match_order_cases (Conserves incoming book) stamp incoming book
        (λ e.
          let f = match_levels book.symbol stamp 0 incoming book.asks in
          ground (
            arith,
            match_levels-left book.symbol stamp 0 incoming book.asks,
            match_levels-Balances book.symbol stamp 0 incoming book.asks,
            total-push_back (better Side.buy) f.left book.bids,
            total-resting book,
            total-resting (match_incoming_buy stamp incoming book).1,
          ))
        (λ e.
          let f = match_levels book.symbol stamp 0 incoming book.bids in
          ground (
            arith,
            match_levels-left book.symbol stamp 0 incoming book.bids,
            match_levels-Balances book.symbol stamp 0 incoming book.bids,
            total-push_back (better Side.sell) f.left book.asks,
            total-resting book,
            total-resting (match_incoming_sell stamp incoming book).1,
          ))
