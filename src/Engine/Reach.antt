-- ===== src/Engine/Reach.antt =====
-- The public calls of `MatchingEngine` (Src_Simulation/src/matching_engine.cpp) as steps between
-- states, and what holds of the books in every state that they reach.
use stock_market_trading_sim.Common.{
  ◌≡◌, refl, sym, ◌∙◌, subst, Bool, true, false, some, List, [], ◌∷◌, is_some, Bool-cases,
  Option-cases, inl, inr,
}
use stock_market_trading_sim.Common.Int.{ℤ}
use stock_market_trading_sim.Common.Keys.{symbol_key}
use stock_market_trading_sim.Common.Maps.{Map, lookup, emplace}
use stock_market_trading_sim.Double.{Double, IsOrdered}
use stock_market_trading_sim.Types.{
  OrderId, ClientId, Symbol, Side, Order, OrderRequest, SubmitResult,
}
use stock_market_trading_sim.OrderBook.{OrderBook, new_book}
use stock_market_trading_sim.OrderBook.Cancel.{cancel, cancel_on_side}
use stock_market_trading_sim.OrderBook.Shrinking.{cancel-IsValid}
use stock_market_trading_sim.Engine.{
  MatchingEngine, Readings, new_engine, drain_dirty_symbols, register_symbol, ensure_client,
  grant_initial_holdings,
}
use stock_market_trading_sim.Engine.Submit.{submit_order}
use stock_market_trading_sim.Engine.Release.{
  ReleaseSummary, try_release_waiting_orders, cancel_order, cancel_order_at, cancel_waiting_order,
  match_released, report_expired, scan_waiting,
}
use stock_market_trading_sim.Engine.Books.{
  BooksValid, After, insert-BooksValid, new_book-IsValid, cancel-symbol, cancel_on_side-symbol,
  submit_order-BooksValid, match_released-BooksValid,
}

module _ {P : Type 0} ⦃d : Double P⦄ where
  -- One public call, with any arguments and any readings of the clock.
  pub data Step (e : MatchingEngine P) : MatchingEngine P → Type 0 where
    registers : (s : Symbol) (price : P) → Step e (register_symbol s price e)
    ensures : (c : ClientId) (cash : P) → Step e (ensure_client c cash e)
    grants : (c : ClientId) (s : Symbol) (n : ℤ) → Step e (grant_initial_holdings c s n e)
    submits :
        (clock : Readings) (r : OrderRequest P) (res : SubmitResult P) {e' : MatchingEngine P}
        → submit_order clock r e ≡ some (res, e')
        → Step e e'
    releases :
        (clock : Readings) (full_scan : Bool) (summary : ReleaseSummary P) {e' : MatchingEngine P}
        → try_release_waiting_orders clock full_scan e ≡ some (summary, e')
        → Step e e'
    cancels : (s : Symbol) (id : OrderId) → Step e (cancel_order s id e).1
    cancels_at :
        (s : Symbol) (side : Side) (p : P) (id : OrderId) → Step e (cancel_order_at s side p id e).1
    cancels_waiting : (id : OrderId) → Step e (cancel_waiting_order id e).1

  pub data Reach : MatchingEngine P → Type 0 where
    start : Reach new_engine
    next : {e e' : MatchingEngine P} → Reach e → Step e e' → Reach e'

  emplace-BooksValid :
      (s : Symbol) (m : Map Symbol (OrderBook P))
      → BooksValid m
      → BooksValid (emplace s (new_book s) m)
  unfolding emplace
  emplace-BooksValid s m v = elim (Bool-cases (is_some (lookup s m))) [
    | inl k ↦ rw (k, emplace) v
    | inr k ↦
        rw (k, emplace)
          (insert-BooksValid s (new_book s) m (new_book-IsValid s) (unfold new_book in refl) v)
  ]

  report_expired-books :
      (os : List (Order P)) (e : MatchingEngine P) → (report_expired os e).books ≡ e.books
  unfolding report_expired
  report_expired-books [] e = refl
  report_expired-books (o ∷ os) e = report_expired-books os _

  scan_waiting-books :
      (clock : Readings) (full : Bool) (e : MatchingEngine P)
      → (scan_waiting clock full e).1.books ≡ e.books
  unfolding scan_waiting drain_dirty_symbols
  scan_waiting-books clock true e = refl
  scan_waiting-books clock false e = refl

  module _ (laws : IsOrdered P) where
    release-BooksValid :
        (clock : Readings) (full : Bool) (e : MatchingEngine P)
        → BooksValid e.books
        → After (λ e'. BooksValid e'.books) (try_release_waiting_orders clock full e)
    unfolding try_release_waiting_orders
    release-BooksValid clock full e v =
        let (scan, scanned) = scan_waiting clock full e in
        let kept : BooksValid scanned.books =
          subst BooksValid (sym (scan_waiting-books clock full e)) v in
        let ih = match_released-BooksValid laws clock scan.released scanned kept in
        elim (Option-cases (match_released clock scan.released scanned)) [
          | inl k ↦ rw (k, try_release_waiting_orders) tt
          | inr ((results, matched), k) ↦
              rw (k, try_release_waiting_orders)
                (subst BooksValid (sym (report_expired-books scan.expired matched)) (rw k at ih))
        ]

    cancel_order-BooksValid :
        (s : Symbol) (id : OrderId) (e : MatchingEngine P)
        → BooksValid e.books
        → BooksValid (cancel_order s id e).1.books
    unfolding cancel_order
    cancel_order-BooksValid s id e v = elim (Option-cases (lookup s e.books)) [
      | inl k ↦ rw (k, cancel_order) v
      | inr (b, k) ↦
          rw (k, cancel_order)
            (insert-BooksValid s (cancel id b).1 e.books
              (cancel-IsValid id Side.buy (d.ratio 0 1) b (v s b k).0).0
              (cancel-symbol id b ∙ (v s b k).1) v)
    ]

    cancel_order_at-BooksValid :
        (s : Symbol) (side : Side) (p : P) (id : OrderId) (e : MatchingEngine P)
        → BooksValid e.books
        → BooksValid (cancel_order_at s side p id e).1.books
    unfolding cancel_order_at
    cancel_order_at-BooksValid s side p id e v = elim (Option-cases (lookup s e.books)) [
      | inl k ↦ rw (k, cancel_order_at) v
      | inr (b, k) ↦
          rw (k, cancel_order_at)
            (insert-BooksValid s (cancel_on_side side p id b).1 e.books
              (cancel-IsValid id side p b (v s b k).0).1
              (cancel_on_side-symbol side p id b ∙ (v s b k).1) v)
    ]

    Step-BooksValid :
        {e e' : MatchingEngine P} → Step e e' → BooksValid e.books → BooksValid e'.books
    unfolding ensure_client grant_initial_holdings cancel_waiting_order
    Step-BooksValid {e} (registers s price) v =
        unfold register_symbol in emplace-BooksValid s e.books v
    Step-BooksValid (ensures c cash) v = v
    Step-BooksValid (grants c s n) v = v
    Step-BooksValid {e} (submits clock r res k) v =
        rw k at (submit_order-BooksValid laws clock r e v)
    Step-BooksValid {e} (releases clock full summary k) v =
        rw k at (release-BooksValid clock full e v)
    Step-BooksValid {e} (cancels s id) v = cancel_order-BooksValid s id e v
    Step-BooksValid {e} (cancels_at s side p id) v = cancel_order_at-BooksValid s side p id e v
    Step-BooksValid (cancels_waiting id) v = v

    -- In every state that the public calls reach, every book is valid and of its own symbol, so that
    -- its best bid is below its best ask.
    pub Reach-BooksValid : {e : MatchingEngine P} → Reach e → BooksValid e.books
    unfolding new_engine lookup
    Reach-BooksValid start = λ s b h. let bad : ⊥ = cc h in absurd bad
    Reach-BooksValid (next r s) = Step-BooksValid s (Reach-BooksValid r)
