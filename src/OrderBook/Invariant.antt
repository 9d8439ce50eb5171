-- ===== src/OrderBook/Invariant.antt =====
-- The order book's invariant: both sides sorted, every level with a queue of live limit orders at its
-- price, and no bid at or above an ask. What the loops of
-- Src_Simulation/src/order_book.cpp keep of it.
use stock_market_trading_sim.Common.{
  ℕ, suc, ◌+◌, ◌-◌, min, ◌<◌, ◌≡◌, true, false, List, [], ◌∷◌, arith, length, All,
}
use stock_market_trading_sim.Double.{Double}
use stock_market_trading_sim.Types.{Symbol, TimePoint, Side, Order, is_market}
use stock_market_trading_sim.OrderBook.{Levels, OrderBook, fill_queue, match_levels, better}

module _ {P : Type 0} where
  abbrev pub IsNonEmpty : List (Order P) → Type 0
  IsNonEmpty [] = ⊥
  IsNonEmpty (o ∷ queue) = Unit

  -- Each level comes strictly before those behind it.
  abbrev pub IsSorted : (P → P → Type 0) → Levels P → Type 0
  IsSorted R [] = Unit
  IsSorted R ((p, queue) ∷ levels) = All (λ l. R p l.0) levels × IsSorted R levels

module _ {P : Type 0} ⦃d : Double P⦄ where
  -- An order that rests on a side, at a price that the comparison does not tell from the level's.
  pub record IsResting (side : Side) (p : P) (o : Order P) : Type 0 where
    pub live : 0 < o.quantity
    pub on_side : o.side ≡ side
    pub limited : is_market o.kind ≡ false
    pub at_level : (d.lt p o.price ≡ false) × (d.lt o.price p ≡ false)

  abbrev pub IsLevel : Side → P × List (Order P) → Type 0
  IsLevel side (p, queue) = IsNonEmpty queue × All (IsResting side p) queue

  abbrev pub Better : Side → P → P → Type 0
  Better side x y = better side x y ≡ true

  abbrev pub IsUncrossed : Levels P → Levels P → Type 0
  IsUncrossed bids asks = All (λ b. All (λ a. d.lt b.0 a.0 ≡ true) asks) bids

  pub record IsValid (book : OrderBook P) : Type 0 where
    pub bid_levels : All (IsLevel Side.buy) book.bids
    pub ask_levels : All (IsLevel Side.sell) book.asks
    pub bids_sorted : IsSorted (Better Side.buy) book.bids
    pub asks_sorted : IsSorted (Better Side.sell) book.asks
    pub uncrossed : IsUncrossed book.bids book.asks

module _ {P : Type 0} ⦃d : Double P⦄ (symbol : Symbol) (stamp : ℕ → TimePoint) where
  fill_queue-IsResting :
      (side : Side) (made : ℕ) (price : P) (incoming : Order P) (queue : List (Order P))
      → All (IsResting side price) queue
      → All (IsResting side price) (fill_queue symbol stamp made price incoming queue).rest
  unfolding fill_queue
  fill_queue-IsResting side made price incoming [] v = tt
  fill_queue-IsResting side made price incoming (o ∷ queue) (r, v) = ground (
    arith,
    fill_queue-IsResting side (suc made) price
        (record incoming { quantity = incoming.quantity - min incoming.quantity o.quantity }) queue
        v,
  )

  -- Whatever holds of the prices of the levels holds of those that are left.
  pub match_levels-All :
      (Q : P → Type 0) (made : ℕ) (incoming : Order P) (levels : Levels P)
      → All (λ l. Q l.0) levels
      → All (λ l. Q l.0) (match_levels symbol stamp made incoming levels).rest
  unfolding match_levels
  match_levels-All Q made incoming [] v = tt
  match_levels-All Q made incoming ((price, queue) ∷ levels) (q, v) =
      let here = fill_queue symbol stamp made price incoming queue in
      ground (arith, match_levels-All Q (made + length here.trades) here.left levels v)

  pub match_levels-IsLevel :
      (side : Side) (made : ℕ) (incoming : Order P) (levels : Levels P)
      → All (IsLevel side) levels
      → All (IsLevel side) (match_levels symbol stamp made incoming levels).rest
  unfolding match_levels
  match_levels-IsLevel side made incoming [] v = tt
  match_levels-IsLevel side made incoming ((price, queue) ∷ levels) ((n, r), v) =
      let here = fill_queue symbol stamp made price incoming queue in
      ground (
        arith,
        fill_queue-IsResting side made price incoming queue r,
        match_levels-IsLevel side (made + length here.trades) here.left levels v,
      )

  pub match_levels-IsSorted :
      (R : P → P → Type 0) (made : ℕ) (incoming : Order P) (levels : Levels P)
      → IsSorted R levels
      → IsSorted R (match_levels symbol stamp made incoming levels).rest
  unfolding match_levels
  match_levels-IsSorted R made incoming [] v = tt
  match_levels-IsSorted R made incoming ((price, queue) ∷ levels) (q, v) =
      let here = fill_queue symbol stamp made price incoming queue in
      ground (arith, match_levels-IsSorted R (made + length here.trades) here.left levels v)
