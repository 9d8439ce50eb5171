-- ===== src/Engine/Books.antt =====
-- What the calls of `MatchingEngine` (Src_Simulation/src/matching_engine.cpp) keep of the books.
use stock_market_trading_sim.Common.{
  ℕ, ◌≡◌, refl, ◌∙◌, subst, Option, none, some, List, [], ◌∷◌, arith, Bool-cases, Option-cases, inl,
  inr,
}
use mathlib.Core.Option.{some-injective}
use stock_market_trading_sim.Common.Keys.{◌==◌, symbol_key}
use stock_market_trading_sim.Common.Maps.{Map, lookup, insert, lookup-insert}
use stock_market_trading_sim.Double.{Double, IsOrdered}
use stock_market_trading_sim.Types.{
  OrderId, Symbol, TimePoint, Side, Order, OrderRequest, SubmitResult,
}
use stock_market_trading_sim.OrderBook.{
  OrderBook, new_book, match_order, match_order_cases, match_incoming_buy, match_incoming_sell,
}
use stock_market_trading_sim.OrderBook.Cancel.{cancel, cancel_on_side}
use stock_market_trading_sim.OrderBook.Invariant.{IsValid}
use stock_market_trading_sim.OrderBook.Validity.{match_order-IsValid}
use stock_market_trading_sim.Engine.{MatchingEngine, Readings}
use stock_market_trading_sim.Engine.Matching.{
  match_in_book, match_and_settle_hit, match_and_settle_miss,
}
use stock_market_trading_sim.Engine.Orders.{build_order}
use stock_market_trading_sim.Engine.Submit.{submit_order, reject, enqueue, take_id}
use stock_market_trading_sim.Engine.Submit.Cases.{fresh_order, submit_order_cases}
use stock_market_trading_sim.Engine.Frames.{match_in_book-MatchesIn}
use stock_market_trading_sim.Engine.Release.{match_released, with_result}

module _ {P : Type 0} ⦃d : Double P⦄ where
  -- Each book is valid and of the symbol that it is filed under.
  abbrev pub BooksValid : Map Symbol (OrderBook P) → Type 0
  BooksValid m = (s : Symbol) (b : OrderBook P) → lookup s m ≡ some b → IsValid b × (b.symbol ≡ s)

  pub insert-BooksValid :
      (s : Symbol) (b : OrderBook P) (m : Map Symbol (OrderBook P))
      → IsValid b
      → b.symbol ≡ s
      → BooksValid m
      → BooksValid (insert s b m)
  insert-BooksValid s b m v e all t c h = elim (Bool-cases (s == t)) [
    | inl k ↦
        let same : b ≡ c = some-injective _ _ (ground (arith, lookup-insert s t b m, h, k)) in
        let st : s ≡ t = (symbol_key.same_iff s t).0 k in
        subst (λ x. IsValid x × (x.symbol ≡ t)) same (v, e ∙ st)
    | inr k ↦ all t c (ground (arith, lookup-insert s t b m, h, k))
  ]

  pub match_order-symbol :
      (stamp : ℕ → TimePoint) (o : Order P) (b : OrderBook P)
      → (match_order stamp o b).1.symbol ≡ b.symbol
  unfolding match_incoming_buy match_incoming_sell
  match_order-symbol stamp o b =
      match_order_cases (λ r. r.1.symbol ≡ b.symbol) stamp o b (λ e. refl) (λ e. refl)

  pub new_book-IsValid : (s : Symbol) → IsValid {P = P} (new_book s)
  unfolding new_book
  new_book-IsValid s = record {
    bid_levels = tt;
    ask_levels = tt;
    bids_sorted = tt;
    asks_sorted = tt;
    uncrossed = tt;
  }

  pub cancel-symbol : (id : OrderId) (b : OrderBook P) → (cancel id b).1.symbol ≡ b.symbol
  unfolding cancel
  cancel-symbol id b = ground arith

  pub cancel_on_side-symbol :
      (side : Side) (p : P) (id : OrderId) (b : OrderBook P)
      → (cancel_on_side side p id b).1.symbol ≡ b.symbol
  unfolding cancel_on_side
  cancel_on_side-symbol Side.buy p id b = ground arith
  cancel_on_side-symbol Side.sell p id b = ground arith

  -- What holds of the state after a call, if it returns.
  abbrev pub After :
      {A : Type 0} → (MatchingEngine P → Type 0) → Option (A × MatchingEngine P) → Type 0
  After Q none = Unit
  After Q (some (a, e)) = Q e

  pub After-with_result :
      (Q : MatchingEngine P → Type 0) (r : SubmitResult P)
      (m : Option (List (SubmitResult P) × MatchingEngine P))
      → After Q m
      → After Q (with_result r m)
  After-with_result Q r none q = q
  After-with_result Q r (some (rs, e)) q = q

  module _ (laws : IsOrdered P) where
    match_in_book-BooksValid :
        (clock : Readings) (o : Order P) (b : OrderBook P) (e : MatchingEngine P)
        → lookup o.symbol e.books ≡ some b
        → BooksValid e.books
        → BooksValid (match_in_book clock o b e).1.books
    match_in_book-BooksValid clock o b e k v = rw (match_in_book-MatchesIn clock o b e).books (
        let (valid, of) = v o.symbol b k in
        insert-BooksValid o.symbol (match_order (clock.stamp o.id) o b).1 e.books
          (match_order-IsValid laws (clock.stamp o.id) o b valid)
          (match_order-symbol (clock.stamp o.id) o b ∙ of) v)

    pub submit_order-BooksValid :
        (clock : Readings) (r : OrderRequest P) (e : MatchingEngine P)
        → BooksValid e.books
        → After (λ e'. BooksValid e'.books) (submit_order clock r e)
    unfolding reject enqueue build_order
    submit_order-BooksValid clock r e v =
        submit_order_cases (After λ e'. BooksValid e'.books) clock r e (λ reason k. v)
          (λ book k b y.
            match_in_book-BooksValid clock (fresh_order clock r e) book (take_id e) b v)
          (λ k n. v)

    pub match_released-BooksValid :
        (clock : Readings) (os : List (Order P)) (e : MatchingEngine P)
        → BooksValid e.books
        → After (λ e'. BooksValid e'.books) (match_released clock os e)
    unfolding match_released
    match_released-BooksValid clock [] e v = v
    match_released-BooksValid clock (o ∷ os) e v = elim (Option-cases (lookup o.symbol e.books)) [
      | inl k ↦ rw (match_and_settle_miss clock o e k, match_released) tt
      | inr (b, k) ↦
          let (r, e') = match_in_book clock o b e in
          let ih =
            match_released-BooksValid clock os e' (match_in_book-BooksValid clock o b e k v) in
          rw (match_and_settle_hit clock o e b k, match_released)
            (After-with_result (λ e'. BooksValid e'.books) r (match_released clock os e') ih)
    ]
