-- ===== src/Engine/Matching.antt =====
-- `match_and_settle` of Src_Simulation/src/matching_engine.cpp.
use stock_market_trading_sim.Common.{
  ℕ, ◌+◌, ◌≡◌, true, false, Option, none, some, List, [], ◌∷◌, length,
}
use stock_market_trading_sim.Common.Keys.{symbol_key}
use stock_market_trading_sim.Common.Maps.{lookup, insert}
use stock_market_trading_sim.Double.{Double}
use stock_market_trading_sim.Types.{Order, Trade, SubmitResult}
use stock_market_trading_sim.OrderBook.{OrderBook, match_order}
use stock_market_trading_sim.Metrics.{
  order_accepted, add_trades_executed, add_volume_traded, record_submit_latency,
}
use stock_market_trading_sim.Notification.{Event}
use stock_market_trading_sim.Engine.{MatchingEngine, Readings, publish, count, settle, mark_dirty}

module _ {P : Type 0} ⦃d : Double P⦄ where
  -- The body of the loop over the trades.
  unfoldable pub post_trade : Trade P → MatchingEngine P → MatchingEngine P
  unfolding settle mark_dirty
  post_trade t e =
      let settled = settle t e in
      let priced = record settled { last_prices = insert t.symbol t.price settled.last_prices } in
      publish (Event.trade_event t) (mark_dirty t.symbol priced)

  -- The loop, with the quantity filled so far.
  unfoldable pub post_trades : List (Trade P) → ℕ → MatchingEngine P → ℕ × MatchingEngine P
  post_trades [] filled e = (filled, e)
  post_trades (t ∷ ts) filled e = post_trades ts (filled + t.quantity) (post_trade t e)

  -- The loop that counts the volume.
  unfoldable pub count_volume : List (Trade P) → MatchingEngine P → MatchingEngine P
  count_volume [] e = e
  count_volume (t ∷ ts) e = count_volume ts (count (add_volume_traded t.quantity) e)

  unfoldable pub match_in_book :
      Readings → Order P → OrderBook P → MatchingEngine P → SubmitResult P × MatchingEngine P
  match_in_book clock o book e =
      let (trades, book') = match_order (clock.stamp o.id) o book in
      let booked = record e { books = insert o.symbol book' e.books } in
      let accepted =
        publish (Event.order_accepted_event o.id o.client o.symbol) (count order_accepted booked) in
      let (filled, posted) = post_trades trades 0 accepted in
      let counted = count_volume trades (count (add_trades_executed (length trades)) posted) in
      (
        record {
          accepted = true;
          queued = false;
          reject_reason = none;
          order_id = o.id;
          filled_quantity = filled;
          trades = trades;
        },
        count (record_submit_latency (clock.elapsed o.id)) counted,
      )

  -- `none` is the exception that `book_for` throws for a symbol that has no book.
  unfoldable pub match_and_settle :
      Readings → Order P → MatchingEngine P → Option (SubmitResult P × MatchingEngine P)
  match_and_settle clock o e = elim (lookup o.symbol e.books) [
    | none ↦ none
    | some book ↦ some (match_in_book clock o book e)
  ]

  pub match_and_settle_miss :
      (clock : Readings) (o : Order P) (e : MatchingEngine P)
      → lookup o.symbol e.books ≡ none
      → match_and_settle clock o e ≡ none
  unfolding match_and_settle
  match_and_settle_miss clock o e k = rw (k, match_and_settle)

  pub match_and_settle_hit :
      (clock : Readings) (o : Order P) (e : MatchingEngine P) (book : OrderBook P)
      → lookup o.symbol e.books ≡ some book
      → match_and_settle clock o e ≡ some (match_in_book clock o book e)
  unfolding match_and_settle
  match_and_settle_hit clock o e book k = rw (k, match_and_settle)
