-- ===== src/OrderBook/Fills.antt =====
-- What the two matching loops of Src_Simulation/src/order_book.cpp keep: no quantity is lost or made
-- up, and what stays in the book.
use stock_market_trading_sim.Common.{
  ℕ, suc, ◌+◌, ◌-◌, min, ◌<◌, ◌≡◌, refl, List, [], ◌∷◌, arith, length, sum_by, sum_by-append, All,
}
use stock_market_trading_sim.Double.{Double}
use stock_market_trading_sim.Types.{Symbol, TimePoint, Order, Trade}
use stock_market_trading_sim.OrderBook.{Levels, fill_queue, match_levels}
use stock_market_trading_sim.OrderBook.Views.{order_quantity, orders_of}

module _ {P : Type 0} where
  abbrev pub trade_quantity : Trade P → ℕ
  trade_quantity t = t.quantity

  abbrev pub traded : List (Trade P) → ℕ
  traded = sum_by trade_quantity

  -- Something of the order is left to trade.
  abbrev pub IsLive : Order P → Type 0
  IsLive o = 0 < o.quantity

  abbrev pub total : List (Order P) → ℕ
  total = sum_by order_quantity

-- The trades take from both sides alike.
pub record Balances {P : Type 0} (incoming : Order P) (before : List (Order P))
    (trades : List (Trade P)) (left : Order P) (after : List (Order P)) : Type 0 where
  pub taken : traded trades + left.quantity ≡ incoming.quantity
  pub given : traded trades + total after ≡ total before

module _ {P : Type 0} (symbol : Symbol) (stamp : ℕ → TimePoint) where
  pub fill_queue-Balances :
      (made : ℕ) (price : P) (incoming : Order P) (queue : List (Order P))
      → let f = fill_queue symbol stamp made price incoming queue in
        Balances incoming queue f.trades f.left f.rest
  unfolding fill_queue
  fill_queue-Balances made price incoming [] = ground arith
  fill_queue-Balances made price incoming (o ∷ queue) = ground (
    arith,
    fill_queue-Balances (suc made) price
        (record incoming { quantity = incoming.quantity - min incoming.quantity o.quantity }) queue,
  )

  -- Where the queue is not used up, `incoming` is.
  abbrev pub Exhausts : Order P → List (Order P) → Type 0
  Exhausts left [] = Unit
  Exhausts left (o ∷ queue) = left.quantity ≡ 0

  pub fill_queue-Exhausts :
      (made : ℕ) (price : P) (incoming : Order P) (queue : List (Order P))
      → let f = fill_queue symbol stamp made price incoming queue in
        All IsLive queue → Exhausts f.left f.rest
  unfolding fill_queue
  fill_queue-Exhausts made price incoming [] v = tt
  fill_queue-Exhausts made price incoming (o ∷ queue) (p, v) = ground (
    arith,
    fill_queue-Exhausts (suc made) price
        (record incoming { quantity = incoming.quantity - min incoming.quantity o.quantity }) queue
        v,
  )

  -- Only the quantity of the incoming order changes.
  pub fill_queue-left :
      (made : ℕ) (price : P) (incoming : Order P) (queue : List (Order P))
      → let f = fill_queue symbol stamp made price incoming queue in
        f.left ≡ record incoming { quantity = f.left.quantity }
  unfolding fill_queue
  fill_queue-left made price incoming [] = refl
  fill_queue-left made price incoming (o ∷ queue) = ground (
    arith,
    fill_queue-left (suc made) price
        (record incoming { quantity = incoming.quantity - min incoming.quantity o.quantity }) queue,
  )

module _ {P : Type 0} ⦃d : Double P⦄ (symbol : Symbol) (stamp : ℕ → TimePoint) where
  pub match_levels-left :
      (made : ℕ) (incoming : Order P) (levels : Levels P)
      → let f = match_levels symbol stamp made incoming levels in
        f.left ≡ record incoming { quantity = f.left.quantity }
  unfolding match_levels
  match_levels-left made incoming [] = refl
  match_levels-left made incoming ((price, queue) ∷ levels) =
      let here = fill_queue symbol stamp made price incoming queue in
      ground (
        arith,
        fill_queue-left symbol stamp made price incoming queue,
        match_levels-left (made + length here.trades) here.left levels,
      )

  pub match_levels-Balances :
      (made : ℕ) (incoming : Order P) (levels : Levels P)
      → let f = match_levels symbol stamp made incoming levels in
        Balances incoming (orders_of levels) f.trades f.left (orders_of f.rest)
  unfolding match_levels orders_of
  match_levels-Balances made incoming [] = ground arith
  match_levels-Balances made incoming ((price, queue) ∷ levels) =
      let here = fill_queue symbol stamp made price incoming queue in
      let more = match_levels symbol stamp (made + length here.trades) here.left levels in
      ground (
        arith,
        fill_queue-Balances symbol stamp made price incoming queue,
        match_levels-Balances (made + length here.trades) here.left levels,
        sum_by-append trade_quantity here.trades more.trades,
        sum_by-append order_quantity queue (orders_of levels),
        sum_by-append order_quantity here.rest (orders_of levels),
      )
