-- ===== src/OrderBook/Validity.antt =====
-- `OrderBook::match` keeps the invariant of the book (Src_Simulation/src/order_book.cpp).
use stock_market_trading_sim.Common.{
  ℕ, ◌≡◌, sym, subst, true, arith, All, All-imp, All-zip, Bool-cases, inl, inr,
}
use stock_market_trading_sim.Double.{Double, IsOrdered}
use stock_market_trading_sim.Types.{Symbol, TimePoint, Side, Order}
use stock_market_trading_sim.OrderBook.{
  Levels, OrderBook, match_levels, out_of_reach, beyond, better, rests, match_order,
  match_incoming_buy, match_incoming_sell, match_order_cases,
}
use stock_market_trading_sim.OrderBook.Fills.{match_levels-left}
use stock_market_trading_sim.OrderBook.Invariant.{
  IsSorted, IsLevel, IsResting, Better, IsUncrossed, IsValid, match_levels-All,
  match_levels-IsLevel, match_levels-IsSorted,
}
use stock_market_trading_sim.OrderBook.Rest.{
  opposite, match_levels-out_of_reach, push_back-All, push_back-IsLevel, push_back-IsSorted,
}

module _ {P : Type 0} ⦃d : Double P⦄ where
  beyond_of_out_of_reach :
      (side : Side) (o left : Order P) (p : P)
      → o.side ≡ side
      → left ≡ record o { quantity = left.quantity }
      → out_of_reach o p ≡ true
      → beyond side left.price p ≡ true
  unfolding out_of_reach
  beyond_of_out_of_reach Side.buy o left p e k h = ground arith
  beyond_of_out_of_reach Side.sell o left p e k h = ground arith

module _ {P : Type 0} ⦃d : Double P⦄ (laws : IsOrdered P) (symbol : Symbol) (stamp : ℕ → TimePoint)
    (side : Side) (incoming : Order P) (on_side : incoming.side ≡ side) (levels : Levels P) where
  abbrev left : Order P
  left = (match_levels symbol stamp 0 incoming levels).left

  left-IsResting : rests left ≡ true → IsResting side left.price left
  left-IsResting h =
      ground (arith, match_levels-left symbol stamp 0 incoming levels, laws.lt_irrefl left.price)

  left-beyond :
      All (IsLevel (opposite side)) levels
      → IsSorted (Better (opposite side)) levels
      → rests left ≡ true
      → All
          (λ l. beyond side left.price l.0 ≡ true)
          (match_levels symbol stamp 0 incoming levels).rest
  left-beyond v s h =
      All-imp _ _ (match_levels symbol stamp 0 incoming levels).rest
        (λ l.
          beyond_of_out_of_reach side incoming left l.0 on_side
            (match_levels-left symbol stamp 0 incoming levels))
        (match_levels-out_of_reach laws symbol stamp incoming levels
          (subst (λ x. All (IsLevel (opposite x)) levels) (sym on_side) v)
          (subst (λ x. IsSorted (Better (opposite x)) levels) (sym on_side) s) (ground arith))

module _ {P : Type 0} ⦃d : Double P⦄ (laws : IsOrdered P) (stamp : ℕ → TimePoint) where
  match_incoming_buy-IsValid :
      (incoming : Order P) (book : OrderBook P)
      → incoming.side ≡ Side.buy
      → IsValid book
      → IsValid (match_incoming_buy stamp incoming book).1
  unfolding match_incoming_buy
  match_incoming_buy-IsValid incoming book e v =
      let f = match_levels book.symbol stamp 0 incoming book.asks in
      let asks_levels =
        match_levels-IsLevel book.symbol stamp Side.sell 0 incoming book.asks v.ask_levels in
      let asks_sorted =
        match_levels-IsSorted book.symbol stamp (Better Side.sell) 0 incoming book.asks
          v.asks_sorted in
      let apart : IsUncrossed book.bids f.rest =
        All-imp _ _ book.bids
          (λ b. match_levels-All book.symbol stamp (λ p. d.lt b.0 p ≡ true) 0 incoming book.asks)
          v.uncrossed in
      elim (Bool-cases (rests f.left)) [
        | inl r ↦ rw r (record {
          bid_levels =
              push_back-IsLevel Side.buy f.left book.bids
                (left-IsResting laws book.symbol stamp Side.buy incoming e book.asks r)
                v.bid_levels;
          ask_levels = asks_levels;
          bids_sorted = push_back-IsSorted laws Side.buy f.left book.bids v.bids_sorted;
          asks_sorted = asks_sorted;
          uncrossed =
              push_back-All (λ p. All (λ a. d.lt p a.0 ≡ true) f.rest) (better Side.buy) f.left
                book.bids
                (left-beyond laws book.symbol stamp Side.buy incoming e book.asks v.ask_levels
                  v.asks_sorted r)
                apart;
        })
        | inr r ↦ rw r (record {
          bid_levels = v.bid_levels;
          ask_levels = asks_levels;
          bids_sorted = v.bids_sorted;
          asks_sorted = asks_sorted;
          uncrossed = apart;
        })
      ]

  match_incoming_sell-IsValid :
      (incoming : Order P) (book : OrderBook P)
      → incoming.side ≡ Side.sell
      → IsValid book
      → IsValid (match_incoming_sell stamp incoming book).1
  unfolding match_incoming_sell
  match_incoming_sell-IsValid incoming book e v =
      let f = match_levels book.symbol stamp 0 incoming book.bids in
      let bid_levels =
        match_levels-IsLevel book.symbol stamp Side.buy 0 incoming book.bids v.bid_levels in
      let bids_sorted =
        match_levels-IsSorted book.symbol stamp (Better Side.buy) 0 incoming book.bids
          v.bids_sorted in
      let apart : IsUncrossed f.rest book.asks =
        match_levels-All book.symbol stamp (λ p. All (λ a. d.lt p a.0 ≡ true) book.asks) 0 incoming
          book.bids v.uncrossed in
      elim (Bool-cases (rests f.left)) [
        | inl r ↦ rw r (record {
          bid_levels = bid_levels;
          ask_levels =
              push_back-IsLevel Side.sell f.left book.asks
                (left-IsResting laws book.symbol stamp Side.sell incoming e book.bids r)
                v.ask_levels;
          bids_sorted = bids_sorted;
          asks_sorted = push_back-IsSorted laws Side.sell f.left book.asks v.asks_sorted;
          uncrossed =
              All-zip _ _ _ f.rest
                (λ b q h.
                  push_back-All (λ p. d.lt b.0 p ≡ true) (better Side.sell) f.left book.asks h q)
                apart
                (left-beyond laws book.symbol stamp Side.sell incoming e book.bids v.bid_levels
                  v.bids_sorted r);
        })
        | inr r ↦ rw r (record {
          bid_levels = bid_levels;
          ask_levels = v.ask_levels;
          bids_sorted = bids_sorted;
          asks_sorted = v.asks_sorted;
          uncrossed = apart;
        })
      ]

  -- Matching keeps the book valid, whatever the order's kind, side, price and quantity: both sides
  -- strictly sorted by price, no empty level, every resting order live, of its side, not a market
  -- order and at its level's price, and every bid strictly below every ask.
  pub match_order-IsValid :
      (incoming : Order P) (book : OrderBook P)
      → IsValid book
      → IsValid (match_order stamp incoming book).1
  match_order-IsValid incoming book v =
      match_order_cases (λ r. IsValid r.1) stamp incoming book
        (λ e. match_incoming_buy-IsValid incoming book e v)
        (λ e. match_incoming_sell-IsValid incoming book e v)
