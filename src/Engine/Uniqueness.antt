-- ===== src/Engine/Uniqueness.antt =====
-- The maps of the engine have one entry for each key, as `std::unordered_map` has
-- (Src_Simulation/src/matching_engine.cpp).
use stock_market_trading_sim.Common.{
  ℕ, Bool, true, false, List, [], ◌∷◌, All, either, is_some, Option-cases, Bool-cases, inl, inr,
}
use stock_market_trading_sim.Common.Int.{ℤ}
use stock_market_trading_sim.Common.Keys.{◌==◌, id_key, symbol_key}
use stock_market_trading_sim.Common.Maps.{
  Map, lookup, insert, emplace, get_or, Distinct, insert-Distinct,
}
use stock_market_trading_sim.Double.{Double}
use stock_market_trading_sim.Types.{ClientId, Symbol, Side, OrderId, Order, OrderRequest, Trade}
use stock_market_trading_sim.Portfolio.{Portfolio, no_portfolio, add_holding, sub_holding}
use stock_market_trading_sim.OrderBook.{OrderBook}
use stock_market_trading_sim.Engine.{
  MatchingEngine, Readings, new_engine, register_symbol, ensure_client, grant_initial_holdings,
  settle_portfolios, settle, mark_dirty, drain_dirty_symbols,
}
use stock_market_trading_sim.Engine.Matching.{
  post_trade, post_trades, count_volume, match_in_book, match_and_settle_miss, match_and_settle_hit,
}
use stock_market_trading_sim.Engine.Submit.{submit_order, take_id, reject, enqueue}
use stock_market_trading_sim.Engine.Submit.Cases.{submit_order_cases, fresh_order}
use stock_market_trading_sim.Engine.Orders.{build_order}
use stock_market_trading_sim.Engine.Release.{
  try_release_waiting_orders, match_released, report_expired, scan_waiting, cancel_order,
  cancel_order_at, cancel_waiting_order,
}
use stock_market_trading_sim.Engine.Books.{After, After-with_result}
use stock_market_trading_sim.Engine.Reach.{
  Step, registers, ensures, grants, submits, releases, cancels, cancels_at, cancels_waiting, Reach,
  start, next,
}

module _ {P : Type 0} where
  -- A map of portfolios has one entry for each client, and each portfolio one for each symbol.
  abbrev pub AreMaps : Map ClientId (Portfolio P) → Type 0
  AreMaps m = Distinct m × All (λ entry. Distinct entry.1.holdings) m

  insert-All :
      (c : ClientId) (p : Portfolio P) (m : Map ClientId (Portfolio P))
      → Distinct p.holdings
      → All (λ entry. Distinct entry.1.holdings) m
      → All (λ entry. Distinct entry.1.holdings) (insert c p m)
  unfolding insert
  insert-All c p [] d h = (d, tt)
  insert-All c p ((own, q) ∷ m) d (h, hs) =
      either (All λ entry. Distinct entry.1.holdings) (own == c) (d, hs) (h, insert-All c p m d hs)

  insert-AreMaps :
      (c : ClientId) (p : Portfolio P) (m : Map ClientId (Portfolio P))
      → Distinct p.holdings
      → AreMaps m
      → AreMaps (insert c p m)
  insert-AreMaps c p m d (h, hs) = (insert-Distinct c p m h, insert-All c p m d hs)

  found-Distinct :
      (c : ClientId) (q : Portfolio P) (m : Map ClientId (Portfolio P))
      → Distinct q.holdings
      → All (λ entry. Distinct entry.1.holdings) m
      → Distinct (get_or c q m).holdings
  unfolding get_or lookup
  found-Distinct c q [] d h = d
  found-Distinct c q ((own, p) ∷ m) d (h, hs) = elim (Bool-cases (own == c)) [
    | inl k ↦ rw k h
    | inr k ↦ rw k (found-Distinct c q m d hs)
  ]

  add_holding-Distinct :
      (s : Symbol) (n : ℤ) (p : Portfolio P)
      → Distinct p.holdings
      → Distinct (add_holding s n p).holdings
  unfolding add_holding
  add_holding-Distinct s n p d = insert-Distinct s _ p.holdings d

  sub_holding-Distinct :
      (s : Symbol) (n : ℤ) (p : Portfolio P)
      → Distinct p.holdings
      → Distinct (sub_holding s n p).holdings
  unfolding sub_holding
  sub_holding-Distinct s n p d = insert-Distinct s _ p.holdings d

  -- The maps of an engine.
  abbrev pub IsTidy : MatchingEngine P → Type 0
  IsTidy e = AreMaps e.portfolios × Distinct e.last_prices

module _ {P : Type 0} ⦃d : Double P⦄ where
  settle_portfolios-AreMaps :
      (t : Trade P) (m : Map ClientId (Portfolio P)) → AreMaps m → AreMaps (settle_portfolios t m)
  unfolding settle_portfolios
  settle_portfolios-AreMaps t m h =
      let h' =
        insert-AreMaps t.buyer _ m
          (add_holding-Distinct t.symbol _ _ (found-Distinct t.buyer no_portfolio m tt h.1)) h in
      insert-AreMaps t.seller _ _
        (sub_holding-Distinct t.symbol _ _ (found-Distinct t.seller no_portfolio _ tt h'.1)) h'

  post_trade-IsTidy : (t : Trade P) (e : MatchingEngine P) → IsTidy e → IsTidy (post_trade t e)
  unfolding post_trade settle mark_dirty
  post_trade-IsTidy t e (h, l) =
      (settle_portfolios-AreMaps t e.portfolios h, insert-Distinct t.symbol t.price e.last_prices l)

  post_trades-IsTidy :
      (ts : List (Trade P)) (n : ℕ) (e : MatchingEngine P)
      → IsTidy e
      → IsTidy (post_trades ts n e).1
  unfolding post_trades
  post_trades-IsTidy [] n e h = h
  post_trades-IsTidy (t ∷ ts) n e h =
      post_trades-IsTidy ts _ (post_trade t e) (post_trade-IsTidy t e h)

  count_volume-IsTidy :
      (ts : List (Trade P)) (e : MatchingEngine P) → IsTidy e → IsTidy (count_volume ts e)
  unfolding count_volume
  count_volume-IsTidy [] e h = h
  count_volume-IsTidy (t ∷ ts) e h = count_volume-IsTidy ts _ h

  match_in_book-IsTidy :
      (clock : Readings) (o : Order P) (b : OrderBook P) (e : MatchingEngine P)
      → IsTidy e
      → IsTidy (match_in_book clock o b e).1
  unfolding match_in_book
  match_in_book-IsTidy clock o b e h = count_volume-IsTidy _ _ (post_trades-IsTidy _ 0 _ h)

  submit_order-IsTidy :
      (clock : Readings) (r : OrderRequest P) (e : MatchingEngine P)
      → IsTidy e
      → After IsTidy (submit_order clock r e)
  unfolding reject enqueue build_order
  submit_order-IsTidy clock r e h =
      submit_order_cases (After IsTidy) clock r e (λ reason k. h)
        (λ book k b y. match_in_book-IsTidy clock (fresh_order clock r e) book (take_id e) h)
        (λ k n. h)

  match_released-IsTidy :
      (clock : Readings) (os : List (Order P)) (e : MatchingEngine P)
      → IsTidy e
      → After IsTidy (match_released clock os e)
  unfolding match_released
  match_released-IsTidy clock [] e h = h
  match_released-IsTidy clock (o ∷ os) e h = elim (Option-cases (lookup o.symbol e.books)) [
    | inl k ↦ rw (match_and_settle_miss clock o e k, match_released) tt
    | inr (b, k) ↦
        let (r, e') = match_in_book clock o b e in
        let ih = match_released-IsTidy clock os e' (match_in_book-IsTidy clock o b e h) in
        rw (match_and_settle_hit clock o e b k, match_released)
          (After-with_result IsTidy r (match_released clock os e') ih)
  ]

  report_expired-IsTidy :
      (os : List (Order P)) (e : MatchingEngine P) → IsTidy e → IsTidy (report_expired os e)
  unfolding report_expired
  report_expired-IsTidy [] e h = h
  report_expired-IsTidy (o ∷ os) e h = report_expired-IsTidy os _ h

  scan_waiting-IsTidy :
      (clock : Readings) (full : Bool) (e : MatchingEngine P)
      → IsTidy e
      → IsTidy (scan_waiting clock full e).1
  unfolding scan_waiting drain_dirty_symbols
  scan_waiting-IsTidy clock true e h = h
  scan_waiting-IsTidy clock false e h = h

  release-IsTidy :
      (clock : Readings) (full : Bool) (e : MatchingEngine P)
      → IsTidy e
      → After IsTidy (try_release_waiting_orders clock full e)
  unfolding try_release_waiting_orders
  release-IsTidy clock full e h =
      let (scan, scanned) = scan_waiting clock full e in
      let ih =
        match_released-IsTidy clock scan.released scanned (scan_waiting-IsTidy clock full e h) in
      elim (Option-cases (match_released clock scan.released scanned)) [
        | inl k ↦ rw (k, try_release_waiting_orders) tt
        | inr ((results, matched), k) ↦
            rw (k, try_release_waiting_orders)
              (report_expired-IsTidy scan.expired matched (rw k at ih))
      ]

  cancel_order-IsTidy :
      (s : Symbol) (id : OrderId) (e : MatchingEngine P) → IsTidy e → IsTidy (cancel_order s id e).1
  unfolding cancel_order
  cancel_order-IsTidy s id e h = elim (Option-cases (lookup s e.books)) [
    | inl k ↦ rw (k, cancel_order) h
    | inr (b, k) ↦ rw (k, cancel_order) h
  ]

  cancel_order_at-IsTidy :
      (s : Symbol) (side : Side) (p : P) (id : OrderId) (e : MatchingEngine P)
      → IsTidy e
      → IsTidy (cancel_order_at s side p id e).1
  unfolding cancel_order_at
  cancel_order_at-IsTidy s side p id e h = elim (Option-cases (lookup s e.books)) [
    | inl k ↦ rw (k, cancel_order_at) h
    | inr (b, k) ↦ rw (k, cancel_order_at) h
  ]

  emplace-AreMaps :
      (c : ClientId) (p : Portfolio P) (m : Map ClientId (Portfolio P))
      → Distinct p.holdings
      → AreMaps m
      → AreMaps (emplace c p m)
  unfolding emplace
  emplace-AreMaps c p m d h = either AreMaps (is_some (lookup c m)) h (insert-AreMaps c p m d h)

  Step-IsTidy : {e e' : MatchingEngine P} → Step e e' → IsTidy e → IsTidy e'
  unfolding register_symbol ensure_client grant_initial_holdings cancel_waiting_order
  Step-IsTidy {e} (registers s price) (h, l) = (h, insert-Distinct s price e.last_prices l)
  Step-IsTidy {e} (ensures c cash) (h, l) = (emplace-AreMaps c _ e.portfolios tt h, l)
  Step-IsTidy {e} (grants c s n) (h, l) = (
    insert-AreMaps c _ e.portfolios
        (add_holding-Distinct s n _ (found-Distinct c no_portfolio e.portfolios tt h.1)) h,
    l,
  )
  Step-IsTidy {e} (submits clock r res k) h = rw k at (submit_order-IsTidy clock r e h)
  Step-IsTidy {e} (releases clock full summary k) h = rw k at (release-IsTidy clock full e h)
  Step-IsTidy {e} (cancels s id) h = cancel_order-IsTidy s id e h
  Step-IsTidy {e} (cancels_at s side p id) h = cancel_order_at-IsTidy s side p id e h
  Step-IsTidy (cancels_waiting id) h = h

  -- In every state that the public calls reach, no client has two portfolios, no portfolio two entries of a symbol, and no symbol two prices.
  pub Reach-IsTidy : {e : MatchingEngine P} → Reach e → IsTidy e
  unfolding new_engine
  Reach-IsTidy start = ((tt, tt), tt)
  Reach-IsTidy (next r s) = Step-IsTidy s (Reach-IsTidy r)
