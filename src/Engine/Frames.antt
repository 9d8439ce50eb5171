-- ===== src/Engine/Frames.antt =====
-- What the parts of `match_and_settle` leave alone, and what they add
-- (Src_Simulation/src/matching_engine.cpp).
use stock_market_trading_sim.Common.{
  ℕ, ◌+◌, ◌%◌, ◌≡◌, refl, ap, sym, ◌∙◌, true, false, none, List, [], ◌∷◌, ◌++◌, arith, length, map,
}
use mathlib.Core.List.{append_assoc, append-nil}
use stock_market_trading_sim.Common.Keys.{symbol_key}
use stock_market_trading_sim.Common.Maps.{insert}
use stock_market_trading_sim.Double.{Double}
use stock_market_trading_sim.Types.{Symbol, Trade, Order, SubmitResult}
use stock_market_trading_sim.OrderBook.{OrderBook, match_order}
use stock_market_trading_sim.OrderBook.Fills.{traded}
use stock_market_trading_sim.Metrics.{
  MetricsRegistry, u64_mod, order_accepted, add_volume_traded, add_trades_executed,
}
use stock_market_trading_sim.Notification.{Event}
use stock_market_trading_sim.Engine.{MatchingEngine, Readings, publish, count}
use stock_market_trading_sim.Engine.Matching.{post_trade, post_trades, count_volume, match_in_book}
use stock_market_trading_sim.Engine.Holdings.{total_holding, settle_portfolios-total}

-- Counters are compared as 64-bit words.
abbrev pub word : ℕ → ℕ
word n = n % u64_mod

-- Of the metrics, only the volume, by what was traded.
pub record CountsVolume (n : ℕ) (m m' : MetricsRegistry) : Type 0 where
  pub volume : word m'.volume_traded ≡ word (m.volume_traded + n)
  pub submitted : m'.orders_submitted ≡ m.orders_submitted
  pub accepted : m'.orders_accepted ≡ m.orders_accepted
  pub rejected : m'.orders_rejected ≡ m.orders_rejected
  pub queued : m'.orders_queued ≡ m.orders_queued
  pub expired : m'.orders_expired ≡ m.orders_expired
  pub executed : m'.trades_executed ≡ m.trades_executed

module _ {P : Type 0} ⦃d : Double P⦄ where
  -- Two states that agree but for prices, portfolios, dirty symbols, metrics and events.
  pub record SameOrders (e f : MatchingEngine P) : Type 0 where
    pub books : f.books ≡ e.books
    pub registry : f.registry ≡ e.registry
    pub next_order_id : f.next_order_id ≡ e.next_order_id

  post_trades-SameOrders :
      (ts : List (Trade P)) (n : ℕ) (e : MatchingEngine P) → SameOrders e (post_trades ts n e).1
  unfolding post_trades post_trade
  post_trades-SameOrders [] n e = record { books = refl; registry = refl; next_order_id = refl }
  post_trades-SameOrders (t ∷ ts) n e =
      let s = post_trades-SameOrders ts (n + t.quantity) (post_trade t e) in
      record { books = s.books; registry = s.registry; next_order_id = s.next_order_id }

  pub post_trades-filled :
      (ts : List (Trade P)) (n : ℕ) (e : MatchingEngine P) → (post_trades ts n e).0 ≡ n + traded ts
  unfolding post_trades
  post_trades-filled [] n e = omega arith
  post_trades-filled (t ∷ ts) n e =
      omega (arith, post_trades-filled ts (n + t.quantity) (post_trade t e))

  pub post_trades-metrics :
      (ts : List (Trade P)) (n : ℕ) (e : MatchingEngine P)
      → (post_trades ts n e).1.metrics ≡ e.metrics
  unfolding post_trades post_trade
  post_trades-metrics [] n e = refl
  post_trades-metrics (t ∷ ts) n e = post_trades-metrics ts (n + t.quantity) (post_trade t e)

  pub post_trades-events :
      (ts : List (Trade P)) (n : ℕ) (e : MatchingEngine P)
      → (post_trades ts n e).1.events ≡ e.events ++ map Event.trade_event ts
  unfolding post_trades post_trade
  post_trades-events [] n e = sym (append-nil e.events)
  post_trades-events (t ∷ ts) n e =
      post_trades-events ts (n + t.quantity) (post_trade t e)
      ∙ append_assoc e.events (Event.trade_event t ∷ []) (map Event.trade_event ts)

  pub post_trades-total :
      (s : Symbol) (ts : List (Trade P)) (n : ℕ) (e : MatchingEngine P)
      → total_holding s (post_trades ts n e).1.portfolios ≡ total_holding s e.portfolios
  unfolding post_trades post_trade
  post_trades-total s [] n e = refl
  post_trades-total s (t ∷ ts) n e =
      post_trades-total s ts (n + t.quantity) (post_trade t e)
      ∙ settle_portfolios-total s t e.portfolios

  -- Counting the volume changes nothing but the metrics.
  pub count_volume-metrics :
      (ts : List (Trade P)) (e : MatchingEngine P)
      → count_volume ts e ≡ record e { metrics = (count_volume ts e).metrics }
  unfolding count_volume
  count_volume-metrics [] e = refl
  count_volume-metrics (t ∷ ts) e = count_volume-metrics ts _

  count_volume-CountsVolume :
      (ts : List (Trade P)) (e : MatchingEngine P)
      → CountsVolume (traded ts) e.metrics (count_volume ts e).metrics
  unfolding count_volume
  count_volume-CountsVolume [] e = omega arith
  count_volume-CountsVolume (t ∷ ts) e =
      let v = count_volume-CountsVolume ts (count (add_volume_traded t.quantity) e) in omega arith

  -- What matching an order in its book does to the engine, and what it answers.
  pub record MatchesIn (clock : Readings) (o : Order P) (book : OrderBook P) (e : MatchingEngine P)
      (r : SubmitResult P × MatchingEngine P) : Type 0 where
    pub books : r.1.books ≡ insert o.symbol (match_order (clock.stamp o.id) o book).1 e.books
    pub registry : r.1.registry ≡ e.registry
    pub next_order_id : r.1.next_order_id ≡ e.next_order_id
    pub holdings : (s : Symbol) → total_holding s r.1.portfolios ≡ total_holding s e.portfolios
    pub trades : r.0.trades ≡ (match_order (clock.stamp o.id) o book).0
    pub filled : r.0.filled_quantity ≡ traded r.0.trades
    pub answer :
        (r.0.accepted ≡ true)
        × (r.0.queued ≡ false)
        × (r.0.reject_reason ≡ none)
        × (r.0.order_id ≡ o.id)
    pub events :
        r.1.events
        ≡ e.events
          ++ (Event.order_accepted_event o.id o.client o.symbol ∷ map Event.trade_event r.0.trades)
    pub executed :
        word r.1.metrics.trades_executed ≡ word (e.metrics.trades_executed + length r.0.trades)
    pub volume :
        word r.1.metrics.volume_traded ≡ word (e.metrics.volume_traded + r.0.filled_quantity)
    pub accepted : word r.1.metrics.orders_accepted ≡ word (e.metrics.orders_accepted + 1)
    pub submitted : r.1.metrics.orders_submitted ≡ e.metrics.orders_submitted
    pub rejected : r.1.metrics.orders_rejected ≡ e.metrics.orders_rejected
    pub queued : r.1.metrics.orders_queued ≡ e.metrics.orders_queued

  pub match_in_book-MatchesIn :
      (clock : Readings) (o : Order P) (book : OrderBook P) (e : MatchingEngine P)
      → MatchesIn clock o book e (match_in_book clock o book e)
  unfolding match_in_book
  match_in_book-MatchesIn clock o book e =
      let trades = (match_order (clock.stamp o.id) o book).0 in
      let booked = record e {
        books = insert o.symbol (match_order (clock.stamp o.id) o book).1 e.books;
      } in
      let accepted =
        publish (Event.order_accepted_event o.id o.client o.symbol) (count order_accepted booked) in
      let posted = (post_trades trades 0 accepted).1 in
      let executed = count (add_trades_executed (length trades)) posted in
      let same = post_trades-SameOrders trades 0 accepted in
      let counted = count_volume-metrics trades executed in
      let volume = count_volume-CountsVolume trades executed in
      let metrics = post_trades-metrics trades 0 accepted in
      let filled = post_trades-filled trades 0 accepted in
      record {
        books = ap (λ (x : MatchingEngine P). x.books) counted ∙ same.books;
        registry = ap (λ (x : MatchingEngine P). x.registry) counted ∙ same.registry;
        next_order_id = ap (λ (x : MatchingEngine P). x.next_order_id) counted ∙ same.next_order_id;
        holdings = λ s.
            ap (λ (x : MatchingEngine P). total_holding s x.portfolios) counted
            ∙ post_trades-total s trades 0 accepted;
        trades = refl;
        filled = omega (arith, filled);
        answer = (refl, refl, refl, refl);
        events =
            ap (λ (x : MatchingEngine P). x.events) counted
            ∙ post_trades-events trades 0 accepted
            ∙ append_assoc e.events (Event.order_accepted_event o.id o.client o.symbol ∷ [])
                (map Event.trade_event trades);
        executed =
            omega (arith, volume.executed, ap (λ (m : MetricsRegistry). m.trades_executed) metrics);
        volume =
            omega
              (arith, filled, volume.volume, ap (λ (m : MetricsRegistry). m.volume_traded) metrics);
        accepted =
            omega (arith, volume.accepted, ap (λ (m : MetricsRegistry). m.orders_accepted) metrics);
        submitted =
            omega
              (arith, volume.submitted, ap (λ (m : MetricsRegistry). m.orders_submitted) metrics);
        rejected =
            omega (arith, volume.rejected, ap (λ (m : MetricsRegistry). m.orders_rejected) metrics);
        queued =
            omega (arith, volume.queued, ap (λ (m : MetricsRegistry). m.orders_queued) metrics);
      }
