-- ===== src/OrderBook/Depth.antt =====
-- What the read-only views of Src_Simulation/src/order_book.cpp show of the book.
use stock_market_trading_sim.Common.{
  ℕ, zero, suc, ◌+◌, ◌≤◌, ◌≡◌, refl, true, some, List, [], ◌∷◌, arith, take, length, map, sum_by,
  sum_by-append,
}
use mathlib.Core.Option.{some-injective}
use stock_market_trading_sim.Double.{Double}
use stock_market_trading_sim.Types.{Order}
use stock_market_trading_sim.OrderBook.{Levels, OrderBook}
use stock_market_trading_sim.OrderBook.Views.{
  BookLevel, order_quantity, queue_total, side_snapshot, snapshot, best, best_bid, best_ask,
  orders_of,
}
use stock_market_trading_sim.OrderBook.Fills.{total}
use stock_market_trading_sim.OrderBook.Invariant.{IsUncrossed, IsValid}

module _ {P : Type 0} where
  queue_total-eq : (acc : ℕ) (queue : List (Order P)) → queue_total acc queue ≡ acc + total queue
  unfolding queue_total
  queue_total-eq acc [] = omega arith
  queue_total-eq acc (o ∷ queue) = omega (arith, queue_total-eq (acc + o.quantity) queue)

  -- One level: its price, and all that rests at it.
  abbrev pub level_of : P × List (Order P) → BookLevel P
  level_of (p, queue) = record { price = p; quantity = total queue }

  side_snapshot-take :
      (depth : ℕ) (levels : Levels P)
      → side_snapshot depth levels ≡ map level_of (take depth levels)
  unfolding side_snapshot
  side_snapshot-take zero [] = refl
  side_snapshot-take (suc depth) [] = refl
  side_snapshot-take zero (l ∷ levels) = refl
  side_snapshot-take (suc depth) ((p, queue) ∷ levels) =
      ground (arith, queue_total-eq 0 queue, side_snapshot-take depth levels)

  -- The snapshot shows the best `depth` levels of each side, each with its price and the whole
  -- quantity of its queue.
  pub snapshot-take :
      (depth : ℕ) (book : OrderBook P)
      → ((snapshot depth book).bids ≡ map level_of (take depth book.bids))
        × ((snapshot depth book).asks ≡ map level_of (take depth book.asks))
  unfolding snapshot
  snapshot-take depth book =
      (side_snapshot-take depth book.bids, side_snapshot-take depth book.asks)

  side_total :
      (depth : ℕ) (levels : Levels P)
      → length levels ≤ depth
      → sum_by (λ (l : BookLevel P). l.quantity) (side_snapshot depth levels)
        ≡ total (orders_of levels)
  unfolding side_snapshot orders_of
  side_total depth [] h = refl
  side_total zero (l ∷ levels) h = absurd (omega arith)
  side_total (suc depth) ((p, queue) ∷ levels) h = omega (
    arith,
    queue_total-eq 0 queue,
    side_total depth levels,
    sum_by-append order_quantity queue (orders_of levels),
  )

  -- A snapshot that is deep enough accounts for every resting share of both sides.
  pub snapshot-total :
      (depth : ℕ) (book : OrderBook P)
      → length book.bids ≤ depth
      → length book.asks ≤ depth
      → let s = snapshot depth book in
        (sum_by (λ (l : BookLevel P). l.quantity) s.bids ≡ total (orders_of book.bids))
        × (sum_by (λ (l : BookLevel P). l.quantity) s.asks ≡ total (orders_of book.asks))
  unfolding snapshot
  snapshot-total depth book h k = (side_total depth book.bids h, side_total depth book.asks k)

module _ {P : Type 0} ⦃d : Double P⦄ where
  best-lt :
      (bids asks : Levels P) (b a : P)
      → IsUncrossed bids asks
      → best bids ≡ some b
      → best asks ≡ some a
      → d.lt b a ≡ true
  best-lt [] asks b a u h k = cc
  best-lt (x ∷ bids) [] b a u h k = cc
  best-lt ((p, xs) ∷ bids) ((q, ys) ∷ asks) b a u h k =
      rw (← some-injective _ _ h, ← some-injective _ _ k) u.0.0

  -- On a valid book the best bid, if any, is strictly below the best ask, if any.
  pub best_bid-lt-best_ask :
      (book : OrderBook P) (b a : P)
      → IsValid book
      → best_bid book ≡ some b
      → best_ask book ≡ some a
      → d.lt b a ≡ true
  unfolding best_bid best_ask
  best_bid-lt-best_ask book b a v = best-lt book.bids book.asks b a v.uncrossed
