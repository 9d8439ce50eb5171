-- ===== src/OrderBook/Rest.antt =====
-- Where an order may rest: out of reach of what is left of the other side, at its place in its own.
use stock_market_trading_sim.Common.{
  ℕ, ◌+◌, ◌<◌, ◌≡◌, refl, ap, ◌∙◌, true, false, Bool, List, [], ◌∷◌, ◌++◌, arith, length, All,
  All-append, All-imp,
}
use stock_market_trading_sim.Double.{Double, IsOrdered}
use stock_market_trading_sim.Types.{Symbol, TimePoint, Side, Order}
use stock_market_trading_sim.OrderBook.{
  Levels, fill_queue, match_levels, out_of_reach, push_back, better,
}
use stock_market_trading_sim.OrderBook.Fills.{IsLive, fill_queue-Exhausts, fill_queue-left}
use stock_market_trading_sim.OrderBook.Invariant.{IsNonEmpty, IsSorted, IsLevel, IsResting, Better}

abbrev pub opposite : Side → Side
opposite Side.buy = Side.sell
opposite Side.sell = Side.buy

module _ {P : Type 0} ⦃d : Double P⦄ (laws : IsOrdered P) where
  Better-trans : (side : Side) (x y z : P) → Better side x y → Better side y z → Better side x z
  Better-trans Side.buy x y z h k = laws.lt_trans z y x k h
  Better-trans Side.sell x y z h k = laws.lt_trans x y z h k

  -- The test does not look at the quantity.
  out_of_reach-same :
      (o incoming : Order P) (p : P)
      → incoming ≡ record o { quantity = incoming.quantity }
      → out_of_reach incoming p ≡ out_of_reach o p
  unfolding out_of_reach
  out_of_reach-same o incoming p e = ap (λ (i : Order P). out_of_reach i p) e

  out_of_reach_mono :
      (o : Order P) (x y : P)
      → out_of_reach o x ≡ true
      → Better (opposite o.side) x y
      → out_of_reach o y ≡ true
  unfolding out_of_reach
  out_of_reach_mono o x y h k = ground (arith, laws.lt_trans o.price x y, laws.lt_trans y x o.price)

  -- The levels behind one that is out of reach are out of reach.
  out_of_reach-All :
      (o : Order P) (p : P) (levels : Levels P)
      → out_of_reach o p ≡ true
      → All (λ l. Better (opposite o.side) p l.0) levels
      → All (λ l. out_of_reach o l.0 ≡ true) levels
  out_of_reach-All o p levels h = All-imp _ _ levels λ l. out_of_reach_mono o p l.0 h

  module _ (symbol : Symbol) (stamp : ℕ → TimePoint) where
    -- If something is left of the order, no level that it could trade with is left.
    match_levels-out_of_reach_of :
        (o : Order P) (made : ℕ) (incoming : Order P) (levels : Levels P)
        → incoming ≡ record o { quantity = incoming.quantity }
        → All (IsLevel (opposite o.side)) levels
        → IsSorted (Better (opposite o.side)) levels
        → let f = match_levels symbol stamp made incoming levels in
          0 < f.left.quantity → All (λ l. out_of_reach o l.0 ≡ true) f.rest
    unfolding match_levels
    match_levels-out_of_reach_of o made incoming [] e v s h = tt
    match_levels-out_of_reach_of o made incoming ((price, queue) ∷ levels) e (v, vs) (s, ss) h =
        let here = fill_queue symbol stamp made price incoming queue in
        let kept : here.left ≡ record o { quantity = here.left.quantity } =
          fill_queue-left symbol stamp made price incoming queue
          ∙ ap (λ (i : Order P). record i { quantity = here.left.quantity }) e in
        ground (
          arith,
          out_of_reach-same o incoming price e,
          out_of_reach-All o price levels,
          fill_queue-Exhausts symbol stamp made price incoming queue,
          All-imp (IsResting (opposite o.side) price) IsLive queue (λ q r. r.live) v.1,
          match_levels-out_of_reach_of o (made + length here.trades) here.left levels kept vs ss,
        )

    pub match_levels-out_of_reach :
        (incoming : Order P) (levels : Levels P)
        → All (IsLevel (opposite incoming.side)) levels
        → IsSorted (Better (opposite incoming.side)) levels
        → let f = match_levels symbol stamp 0 incoming levels in
          0 < f.left.quantity → All (λ l. out_of_reach incoming l.0 ≡ true) f.rest
    match_levels-out_of_reach incoming levels =
        match_levels-out_of_reach_of incoming 0 incoming levels refl

module _ {P : Type 0} ⦃d : Double P⦄ where
  pub push_back-All :
      (Q : P → Type 0) (before : P → P → Bool) (o : Order P) (levels : Levels P)
      → Q o.price
      → All (λ l. Q l.0) levels
      → All (λ l. Q l.0) (push_back before o levels)
  unfolding push_back
  push_back-All Q before o [] q v = (q, tt)
  push_back-All Q before o ((p, queue) ∷ levels) q (r, v) =
      ground (arith, push_back-All Q before o levels q v)

  IsNonEmpty-snoc : (queue : List (Order P)) (o : Order P) → IsNonEmpty (queue ++ (o ∷ []))
  IsNonEmpty-snoc [] o = tt
  IsNonEmpty-snoc (x ∷ queue) o = tt

  -- Where neither price comes before the other, the order rests at the level.
  IsResting-of_neither :
      (side : Side) (o : Order P) (p : P)
      → IsResting side o.price o
      → better side o.price p ≡ false
      → better side p o.price ≡ false
      → IsResting side p o
  IsResting-of_neither Side.buy o p r h k = ground arith
  IsResting-of_neither Side.sell o p r h k = ground arith

  -- An order that may rest joins the queue of its price, or opens one.
  pub push_back-IsLevel :
      (side : Side) (o : Order P) (levels : Levels P)
      → IsResting side o.price o
      → All (IsLevel side) levels
      → All (IsLevel side) (push_back (better side) o levels)
  unfolding push_back
  push_back-IsLevel side o [] r v = ((tt, (r, tt)), tt)
  push_back-IsLevel side o ((p, queue) ∷ levels) r ((n, q), v) = ground (
    arith,
    IsResting-of_neither side o p r,
    All-append (IsResting side p) queue (o ∷ []) q,
    IsNonEmpty-snoc queue o,
    push_back-IsLevel side o levels r v,
  )

module _ {P : Type 0} ⦃d : Double P⦄ (laws : IsOrdered P) where
  -- Behind a level that comes after `x`, all levels come after `x`.
  Better-All :
      (side : Side) (x p : P) (levels : Levels P)
      → Better side x p
      → All (λ l. Better side p l.0) levels
      → All (λ l. Better side x l.0) levels
  Better-All side x p levels h = All-imp _ _ levels λ l. Better-trans laws side x p l.0 h

  pub push_back-IsSorted :
      (side : Side) (o : Order P) (levels : Levels P)
      → IsSorted (Better side) levels
      → IsSorted (Better side) (push_back (better side) o levels)
  unfolding push_back
  push_back-IsSorted side o [] s = (tt, tt)
  push_back-IsSorted side o ((p, queue) ∷ levels) (b, s) = ground (
    arith,
    Better-All side o.price p levels,
    push_back-All (λ x. Better side p x) (better side) o levels,
    push_back-IsSorted side o levels s,
  )
