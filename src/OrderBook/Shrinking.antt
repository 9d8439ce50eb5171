-- ===== src/OrderBook/Shrinking.antt =====
-- Cancelling keeps the invariant of the book (Src_Simulation/src/order_book.cpp). Both searches end
-- in one way: one order leaves one queue, and the level goes with its last order.
use stock_market_trading_sim.Common.{
  ◌≡◌, refl, true, Bool, Option, none, some, List, [], ◌∷◌, arith, All, All-imp, Bool-cases,
  Option-cases, inl, inr,
}
use stock_market_trading_sim.Double.{Double}
use stock_market_trading_sim.Types.{OrderId, Side, Order}
use stock_market_trading_sim.OrderBook.{Levels, OrderBook, better}
use stock_market_trading_sim.OrderBook.Cancel.{
  remove_order, put_level, cancel_at, cancel_in, with_bids, with_asks, cancel, cancel_on_side,
}
use stock_market_trading_sim.OrderBook.Invariant.{IsSorted, IsLevel, IsResting, Better, IsValid}

module _ {P : Type 0} where
  data Shrinks (id : OrderId) : Levels P → Levels P → Type 0 where
    here :
        {p : P} {queue rest : List (Order P)} {levels new : Levels P}
        → remove_order id queue ≡ some rest
        → new ≡ put_level p rest levels
        → Shrinks id ((p, queue) ∷ levels) new
    there :
        {l : P × List (Order P)} {levels new : Levels P}
        → Shrinks id levels new
        → Shrinks id (l ∷ levels) (l ∷ new)

  -- Of a search that fails nothing is said.
  abbrev OnSome : (Levels P → Type 0) → Option (Levels P) → Type 0
  OnSome Q none = Unit
  OnSome Q (some levels) = Q levels

  cancel_in-Shrinks :
      (id : OrderId) (levels : Levels P) → OnSome (Shrinks id levels) (cancel_in id levels)
  unfolding cancel_in
  cancel_in-Shrinks id [] = tt
  cancel_in-Shrinks id ((p, queue) ∷ levels) = elim (Option-cases (remove_order id queue)) [
    | inr (rest, e) ↦ rw (e, cancel_in) (here e refl)
    | inl e ↦
        let ih = cancel_in-Shrinks id levels in
        elim (Option-cases (cancel_in id levels)) [
          | inl k ↦ rw (e, k, cancel_in) tt
          | inr (new, k) ↦ rw (e, k, cancel_in) (there (rw k at ih))
        ]
  ]

  cancel_at-Shrinks :
      (before : P → P → Bool) (price : P) (id : OrderId) (levels : Levels P)
      → OnSome (Shrinks id levels) (cancel_at before price id levels)
  unfolding cancel_at
  cancel_at-Shrinks before price id [] = tt
  cancel_at-Shrinks before price id ((p, queue) ∷ levels) = elim (Bool-cases (before p price)) [
    | inl b ↦
        let ih = cancel_at-Shrinks before price id levels in
        elim (Option-cases (cancel_at before price id levels)) [
          | inl k ↦ rw (b, k, cancel_at) tt
          | inr (new, k) ↦ rw (b, k, cancel_at) (there (rw k at ih))
        ]
    | inr b ↦ elim (Bool-cases (before price p)) [
      | inl c ↦ rw (b, c, cancel_at) tt
      | inr c ↦ elim (Option-cases (remove_order id queue)) [
        | inl e ↦ rw (b, c, e, cancel_at) tt
        | inr (rest, e) ↦ rw (b, c, e, cancel_at) (here e refl)
      ]
    ]
  ]

  put_level-All :
      (Q : P → Type 0) (p : P) (rest : List (Order P)) (levels : Levels P)
      → Q p
      → All (λ l. Q l.0) levels
      → All (λ l. Q l.0) (put_level p rest levels)
  put_level-All Q p [] levels q v = v
  put_level-All Q p (o ∷ rest) levels q v = (q, v)

  Shrinks-All :
      (Q : P → Type 0) {id : OrderId} {levels new : Levels P}
      → Shrinks id levels new
      → All (λ l. Q l.0) levels
      → All (λ l. Q l.0) new
  Shrinks-All Q (here {p} {queue} {rest} {levels} e k) (q, v) =
      rw k (put_level-All Q p rest levels q v)
  Shrinks-All Q (there s) (q, v) = (q, Shrinks-All Q s v)

  put_level-IsSorted :
      (R : P → P → Type 0) (p : P) (rest : List (Order P)) (levels : Levels P)
      → All (λ l. R p l.0) levels
      → IsSorted R levels
      → IsSorted R (put_level p rest levels)
  put_level-IsSorted R p [] levels b s = s
  put_level-IsSorted R p (o ∷ rest) levels b s = (b, s)

  Shrinks-IsSorted :
      (R : P → P → Type 0) {id : OrderId} {levels new : Levels P}
      → Shrinks id levels new
      → IsSorted R levels
      → IsSorted R new
  Shrinks-IsSorted R (here {p} {queue} {rest} {levels} e k) (b, v) =
      rw k (put_level-IsSorted R p rest levels b v)
  Shrinks-IsSorted R (there {l} s) (b, v) = (Shrinks-All (R l.0) s b, Shrinks-IsSorted R s v)

  remove_order-All :
      (Q : Order P → Type 0) (id : OrderId) (queue rest : List (Order P))
      → remove_order id queue ≡ some rest
      → All Q queue
      → All Q rest
  unfolding remove_order
  remove_order-All Q id [] rest e v = cc
  remove_order-All Q id (o ∷ queue) rest e (q, v) = elim (Option-cases (remove_order id queue)) [
    | inl k ↦ ground (arith, k)
    | inr (r, k) ↦ ground (arith, k, remove_order-All Q id queue r k v)
  ]

module _ {P : Type 0} ⦃d : Double P⦄ where
  put_level-IsLevel :
      (side : Side) (p : P) (rest : List (Order P)) (levels : Levels P)
      → All (IsResting side p) rest
      → All (IsLevel side) levels
      → All (IsLevel side) (put_level p rest levels)
  put_level-IsLevel side p [] levels r v = v
  put_level-IsLevel side p (o ∷ rest) levels r v = ((tt, r), v)

  Shrinks-IsLevel :
      (side : Side) {id : OrderId} {levels new : Levels P}
      → Shrinks id levels new
      → All (IsLevel side) levels
      → All (IsLevel side) new
  Shrinks-IsLevel side {id} (here {p} {queue} {rest} {levels} e k) ((n, r), v) = rw k (
      put_level-IsLevel side p rest levels (remove_order-All (IsResting side p) id queue rest e r)
        v)
  Shrinks-IsLevel side (there s) (q, v) = (q, Shrinks-IsLevel side s v)

  with_bids-IsValid :
      (id : OrderId) (book : OrderBook P) (r : Option (Levels P))
      → IsValid book
      → OnSome (Shrinks id book.bids) r
      → IsValid (with_bids book r).1
  with_bids-IsValid id book none v s = v
  with_bids-IsValid id book (some new) v s = record {
    bid_levels = Shrinks-IsLevel Side.buy s v.bid_levels;
    ask_levels = v.ask_levels;
    bids_sorted = Shrinks-IsSorted (Better Side.buy) s v.bids_sorted;
    asks_sorted = v.asks_sorted;
    uncrossed = Shrinks-All (λ p. All (λ a. d.lt p a.0 ≡ true) book.asks) s v.uncrossed;
  }

  with_asks-IsValid :
      (id : OrderId) (book : OrderBook P) (r : Option (Levels P))
      → IsValid book
      → OnSome (Shrinks id book.asks) r
      → IsValid (with_asks book r).1
  with_asks-IsValid id book none v s = v
  with_asks-IsValid id book (some new) v s = record {
    bid_levels = v.bid_levels;
    ask_levels = Shrinks-IsLevel Side.sell s v.ask_levels;
    bids_sorted = v.bids_sorted;
    asks_sorted = Shrinks-IsSorted (Better Side.sell) s v.asks_sorted;
    uncrossed = All-imp _ _ book.bids (λ b. Shrinks-All (λ p. d.lt b.0 p ≡ true) s) v.uncrossed;
  }

  cancel_by_id-IsValid :
      (id : OrderId) (book : OrderBook P) → IsValid book → IsValid (cancel id book).1
  unfolding cancel
  cancel_by_id-IsValid id book v =
      let bids = cancel_in-Shrinks id book.bids in
      elim (Option-cases (cancel_in id book.bids)) [
        | inl e ↦
            rw (e, cancel)
              (with_asks-IsValid id book (cancel_in id book.asks) v
                (cancel_in-Shrinks id book.asks))
        | inr (new, e) ↦ rw (e, cancel) (with_bids-IsValid id book (some new) v (rw e at bids))
      ]

  cancel_on_side-IsValid :
      (id : OrderId) (side : Side) (price : P) (book : OrderBook P)
      → IsValid book
      → IsValid (cancel_on_side side price id book).1
  unfolding cancel_on_side
  cancel_on_side-IsValid id Side.buy price book v =
      with_bids-IsValid id book (cancel_at (better Side.buy) price id book.bids) v
        (cancel_at-Shrinks (better Side.buy) price id book.bids)
  cancel_on_side-IsValid id Side.sell price book v =
      with_asks-IsValid id book (cancel_at (better Side.sell) price id book.asks) v
        (cancel_at-Shrinks (better Side.sell) price id book.asks)

  -- Both `cancel` keep the book valid, whether or not they find the order.
  pub cancel-IsValid :
      (id : OrderId) (side : Side) (price : P) (book : OrderBook P)
      → IsValid book
      → IsValid (cancel id book).1 × IsValid (cancel_on_side side price id book).1
  cancel-IsValid id side price book v =
      (cancel_by_id-IsValid id book v, cancel_on_side-IsValid id side price book v)
