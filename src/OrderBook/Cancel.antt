-- ===== src/OrderBook/Cancel.antt =====
-- The two `cancel` of Src_Simulation/src/order_book.cpp.
use stock_market_trading_sim.Common.{
  Bool, true, false, Option, none, some, List, [], ◌∷◌, eqb, if◌then◌else◌,
}
use stock_market_trading_sim.Double.{Double}
use stock_market_trading_sim.Types.{OrderId, Side, Order}
use stock_market_trading_sim.OrderBook.{Levels, OrderBook, better}

module _ {P : Type 0} where
  -- `find_if` by id and `erase`; `none` is `end()`.
  unfoldable pub remove_order : OrderId → List (Order P) → Option (List (Order P))
  remove_order id [] = none
  remove_order id (o ∷ queue) =
      if eqb o.id id
      then some queue
      else elim (remove_order id queue) [ none ↦ none | some rest ↦ some (o ∷ rest) ]

  -- A level whose last order has gone is erased.
  abbrev pub put_level : P → List (Order P) → Levels P → Levels P
  put_level p [] levels = levels
  put_level p (o ∷ queue) levels = (p, o ∷ queue) ∷ levels

  -- The search of the level that `map.find(price)` gives, and of the order in its queue.
  unfoldable pub cancel_at : (P → P → Bool) → P → OrderId → Levels P → Option (Levels P)
  cancel_at before price id [] = none
  cancel_at before price id ((p, queue) ∷ levels) =
      if before p price
      then elim (cancel_at before price id levels) [
        | none ↦ none
        | some rest ↦ some ((p, queue) ∷ rest)
      ]
      else if before price p
      then none
      else elim (remove_order id queue) [ none ↦ none | some rest ↦ some (put_level p rest levels) ]

  -- The loop over all levels of one side.
  unfoldable pub cancel_in : OrderId → Levels P → Option (Levels P)
  cancel_in id [] = none
  cancel_in id ((p, queue) ∷ levels) = elim (remove_order id queue) [
    | some rest ↦ some (put_level p rest levels)
    | none ↦ elim (cancel_in id levels) [ none ↦ none | some rest ↦ some ((p, queue) ∷ rest) ]
  ]

  abbrev pub with_bids : OrderBook P → Option (Levels P) → Bool × OrderBook P
  with_bids book none = (false, book)
  with_bids book (some levels) = (true, record book { bids = levels })

  abbrev pub with_asks : OrderBook P → Option (Levels P) → Bool × OrderBook P
  with_asks book none = (false, book)
  with_asks book (some levels) = (true, record book { asks = levels })

  -- `cancel(OrderId)`: the bids first, then the asks.
  unfoldable pub cancel : OrderId → OrderBook P → Bool × OrderBook P
  cancel id book = elim (cancel_in id book.bids) [
    | some levels ↦ (true, record book { bids = levels })
    | none ↦ with_asks book (cancel_in id book.asks)
  ]

module _ {P : Type 0} ⦃d : Double P⦄ where
  -- `cancel(Side, Price, OrderId)`
  unfoldable pub cancel_on_side : Side → P → OrderId → OrderBook P → Bool × OrderBook P
  cancel_on_side Side.buy price id book =
      with_bids book (cancel_at (better Side.buy) price id book.bids)
  cancel_on_side Side.sell price id book =
      with_asks book (cancel_at (better Side.sell) price id book.asks)
