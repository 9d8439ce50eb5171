-- ===== src/OrderBook/Trades.antt =====
-- Each trade of Src_Simulation/src/order_book.cpp: who takes part, at which price and how much.
use stock_market_trading_sim.Common.{
  ℕ, suc, ◌-◌, min, ◌≤◌, ◌<◌, ◌≡◌, refl, false, List, [], ◌∷◌, arith, All, All-imp, Any, inl, inr,
}
use stock_market_trading_sim.Double.{Double}
use stock_market_trading_sim.Types.{Symbol, TimePoint, Side, Order, OrderId, ClientId, Trade}
use stock_market_trading_sim.OrderBook.{Levels, OrderBook, trade_of, out_of_reach, match_order}
use stock_market_trading_sim.OrderBook.Invariant.{IsResting, IsLevel, IsValid}
use stock_market_trading_sim.OrderBook.Priority.{
  Entries, at_price, entries, sweep, other_side, match_order-Sweeps,
}

module _ {P : Type 0} where
  -- The incoming order's end of a trade, and the resting order's.
  abbrev pub taker : Side → Trade P → OrderId × ClientId
  taker Side.buy t = (t.buy_order_id, t.buyer)
  taker Side.sell t = (t.sell_order_id, t.seller)

  abbrev pub maker : Side → Trade P → OrderId × ClientId
  maker Side.buy t = (t.sell_order_id, t.seller)
  maker Side.sell t = (t.buy_order_id, t.buyer)

  trade_of-ends :
      (side : Side) (s : Symbol) (now : TimePoint) (p : P) (n : ℕ) (incoming o : Order P)
      → let t = trade_of side s now p n incoming o in
        (taker side t ≡ (incoming.id, incoming.client))
        × (maker side t ≡ (o.id, o.client))
        × (t.symbol ≡ s)
        × (t.quantity ≡ n)
        × (t.price ≡ p)
  trade_of-ends Side.buy s now p n incoming o = (refl, refl, refl, refl, refl)
  trade_of-ends Side.sell s now p n incoming o = (refl, refl, refl, refl, refl)

module _ {P : Type 0} ⦃d : Double P⦄ (symbol : Symbol) where
  -- A trade of `incoming` with one of the entries.
  pub record IsFair (incoming : Order P) (es : Entries P) (t : Trade P) : Type 0 where
    pub positive : 0 < t.quantity
    pub in_symbol : t.symbol ≡ symbol
    pub taken_by : taker incoming.side t ≡ (incoming.id, incoming.client)
    pub within_limit : out_of_reach incoming t.price ≡ false
    pub made_by :
        Any
          (λ e.
            (maker incoming.side t ≡ (e.1.id, e.1.client))
            × (t.price ≡ e.0)
            × (t.quantity ≤ e.1.quantity))
          es

  trade_of-IsFair :
      (now : TimePoint) (incoming : Order P) (p : P) (o : Order P) (es : Entries P)
      → 0 < incoming.quantity
      → 0 < o.quantity
      → out_of_reach incoming p ≡ false
      → IsFair incoming
          ((p, o) ∷ es)
          (trade_of incoming.side symbol now p (min incoming.quantity o.quantity) incoming o)
  trade_of-IsFair now incoming p o es h k r =
      let n = min incoming.quantity o.quantity in
      let (taken, made, of, much, price) = trade_of-ends incoming.side symbol now p n incoming o in
      record {
        positive = omega arith;
        in_symbol = of;
        taken_by = taken;
        within_limit = rw price r;
        made_by = inl (made, price, omega arith);
      }

  -- A trade with an entry further behind, for less of the order.
  IsFair-cons :
      (incoming : Order P) (n : ℕ) (p : P) (o : Order P) (es : Entries P) (t : Trade P)
      → IsFair (record incoming { quantity = incoming.quantity - n }) es t
      → IsFair incoming ((p, o) ∷ es) t
  unfolding out_of_reach
  IsFair-cons incoming n p o es t f = record {
    positive = f.positive;
    in_symbol = f.in_symbol;
    taken_by = f.taken_by;
    within_limit = f.within_limit;
    made_by = inr f.made_by;
  }

  sweep-IsFair :
      (stamp : ℕ → TimePoint) (made : ℕ) (incoming : Order P) (es : Entries P)
      → All (λ e. 0 < e.1.quantity) es
      → All (IsFair incoming es) (sweep symbol stamp made incoming es).trades
  unfolding sweep
  sweep-IsFair stamp made incoming [] v = tt
  sweep-IsFair stamp made incoming ((p, o) ∷ es) (q, v) =
      let incoming' = record incoming {
        quantity = incoming.quantity - min incoming.quantity o.quantity;
      } in
      ground (
        arith,
        trade_of-IsFair (stamp made) incoming p o es,
        All-imp (IsFair incoming' es) (IsFair incoming ((p, o) ∷ es))
            (sweep symbol stamp (suc made) incoming' es).trades
            (IsFair-cons incoming (min incoming.quantity o.quantity) p o es)
            (sweep-IsFair stamp (suc made) incoming' es v),
      )

module _ {P : Type 0} ⦃d : Double P⦄ where
  at_price-live :
      (side : Side) (p : P) (queue : List (Order P)) (es : Entries P)
      → All (IsResting side p) queue
      → All (λ e. 0 < e.1.quantity) es
      → All (λ e. 0 < e.1.quantity) (at_price p queue es)
  at_price-live side p [] es r v = v
  at_price-live side p (o ∷ queue) es (r, rs) v = (r.live, at_price-live side p queue es rs v)

  entries-live :
      (side : Side) (levels : Levels P)
      → All (IsLevel side) levels
      → All (λ e. 0 < e.1.quantity) (entries levels)
  entries-live side [] v = tt
  entries-live side ((p, queue) ∷ levels) ((n, r), v) =
      at_price-live side p queue (entries levels) r (entries-live side levels v)

  other_side-live :
      (side : Side) (book : OrderBook P)
      → IsValid book
      → All (λ e. 0 < e.1.quantity) (entries (other_side side book))
  other_side-live Side.buy book v = entries-live Side.sell book.asks v.ask_levels
  other_side-live Side.sell book v = entries-live Side.buy book.bids v.bid_levels

  -- Every trade on a valid book is of a positive quantity, in the book's symbol, with the incoming
  -- order at its own end and at the other an order that rests in the book, at that order's price and
  -- for no more than its quantity; and the price is never beyond the incoming order's limit.
  pub match_order-IsFair :
      (stamp : ℕ → TimePoint) (incoming : Order P) (book : OrderBook P)
      → IsValid book
      → All
          (IsFair book.symbol incoming (entries (other_side incoming.side book)))
          (match_order stamp incoming book).0
  match_order-IsFair stamp incoming book v =
      rw (match_order-Sweeps stamp incoming book v).trades_eq
        (sweep-IsFair book.symbol stamp 0 incoming _ (other_side-live incoming.side book v))
