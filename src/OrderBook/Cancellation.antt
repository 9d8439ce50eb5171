-- ===== src/OrderBook/Cancellation.antt =====
-- What the two `cancel` of Src_Simulation/src/order_book.cpp do to the resting orders.
use stock_market_trading_sim.Common.{
  ◌≡◌, refl, true, false, Bool, Option, none, some, List, [], ◌∷◌, ◌++◌, arith, Option-cases, inl,
  inr,
}
use stock_market_trading_sim.Types.{OrderId, Order}
use stock_market_trading_sim.OrderBook.{Levels, OrderBook}
use stock_market_trading_sim.OrderBook.Cancel.{remove_order, put_level, cancel_in, cancel}
use stock_market_trading_sim.OrderBook.Views.{orders_of, resting_orders}

module _ {P : Type 0} where
  -- `remove_order` on a list in two parts.
  abbrev removed :
      List (Order P)
      → List (Order P)
      → Option (List (Order P))
      → Option (List (Order P))
      → Option (List (Order P))
  removed xs ys (some rest) r = some (rest ++ ys)
  removed xs ys none none = none
  removed xs ys none (some rest) = some (xs ++ rest)

  remove_order-append :
      (id : OrderId) (xs ys : List (Order P))
      → remove_order id (xs ++ ys) ≡ removed xs ys (remove_order id xs) (remove_order id ys)
  unfolding remove_order
  remove_order-append id [] ys = ground arith
  remove_order-append id (o ∷ xs) ys = ground (arith, remove_order-append id xs ys)

  abbrev orders_left : Option (Levels P) → Option (List (Order P))
  orders_left none = none
  orders_left (some levels) = some (orders_of levels)

  orders_of-put_level :
      (p : P) (queue : List (Order P)) (levels : Levels P)
      → orders_of (put_level p queue levels) ≡ queue ++ orders_of levels
  unfolding orders_of
  orders_of-put_level p [] levels = refl
  orders_of-put_level p (o ∷ queue) levels = refl

  cancel_in-remove_order :
      (id : OrderId) (levels : Levels P)
      → orders_left (cancel_in id levels) ≡ remove_order id (orders_of levels)
  unfolding cancel_in orders_of
  cancel_in-remove_order id [] = unfold remove_order in refl
  cancel_in-remove_order id ((p, queue) ∷ levels) =
      rw (remove_order-append id queue (orders_of levels), ← cancel_in-remove_order id levels)
        (elim (Option-cases (remove_order id queue)) [
          | inl e ↦ rw e (ground arith)
          | inr (rest, e) ↦ rw e (ground (arith, orders_of-put_level p rest levels))
        ])

  abbrev pub outcome : List (Order P) → Option (List (Order P)) → Bool × List (Order P)
  outcome os none = (false, os)
  outcome os (some rest) = (true, rest)

  -- Cancelling by id removes the first resting order with this id, bids before asks and best price
  -- first, and says so; it leaves the book as it was and says `false` if no resting order has it.
  pub cancel-resting_orders :
      (id : OrderId) (book : OrderBook P)
      → let r = cancel id book in
        (r.0, resting_orders r.1)
        ≡ outcome (resting_orders book) (remove_order id (resting_orders book))
  unfolding cancel resting_orders
  cancel-resting_orders id book = ground (
    arith,
    remove_order-append id (orders_of book.bids) (orders_of book.asks),
    cancel_in-remove_order id book.bids,
    cancel_in-remove_order id book.asks,
  )
