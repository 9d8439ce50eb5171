-- ===== src/OrderBook/Views.antt =====
-- The read-only views of Src_Simulation/src/order_book.cpp: best prices, snapshot, resting orders.
use stock_market_trading_sim.Common.{ℕ, zero, suc, ◌+◌, Option, none, some, List, [], ◌∷◌, ◌++◌}
use stock_market_trading_sim.Types.{Order}
use stock_market_trading_sim.OrderBook.{Levels, OrderBook}

pub record BookLevel (P : Type 0) : Type 0 where
  pub price : P
  pub quantity : ℕ

pub record BookSnapshot (P : Type 0) : Type 0 where
  pub bids : List (BookLevel P)
  pub asks : List (BookLevel P)

module _ {P : Type 0} where
  abbrev pub best : Levels P → Option P
  best [] = none
  best ((p, queue) ∷ levels) = some p

  unfoldable pub best_bid : OrderBook P → Option P
  best_bid book = best book.bids

  unfoldable pub best_ask : OrderBook P → Option P
  best_ask book = best book.asks

  abbrev pub order_quantity : Order P → ℕ
  order_quantity o = o.quantity

  -- The loop over one queue, that adds up its quantities.
  unfoldable pub queue_total : ℕ → List (Order P) → ℕ
  queue_total total [] = total
  queue_total total (o ∷ queue) = queue_total (total + o.quantity) queue

  -- The loop over the levels of one side, with `depth - count` levels to go.
  unfoldable pub side_snapshot : ℕ → Levels P → List (BookLevel P)
  side_snapshot depth [] = []
  side_snapshot zero ((p, queue) ∷ levels) = []
  side_snapshot (suc depth) ((p, queue) ∷ levels) =
      record { price = p; quantity = queue_total 0 queue } ∷ side_snapshot depth levels

  unfoldable pub snapshot : ℕ → OrderBook P → BookSnapshot P
  snapshot depth book = record {
    bids = side_snapshot depth book.bids;
    asks = side_snapshot depth book.asks;
  }

  -- The orders of one side, best price first and oldest first within a price.
  unfoldable pub orders_of : Levels P → List (Order P)
  orders_of [] = []
  orders_of ((p, queue) ∷ levels) = queue ++ orders_of levels

  unfoldable pub resting_orders : OrderBook P → List (Order P)
  resting_orders book = orders_of book.bids ++ orders_of book.asks
