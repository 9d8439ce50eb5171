-- ===== src/Sql/Watcher.antt =====
-- Src_SQL/server.cpp: a round of trigger_and_expiration_watcher, which lets waiting orders expire or
-- enter their books. `none` is a run that does not return.
use stock_market_trading_sim.Common.{ℕ, Bool, ◌&&◌, Option, some, [], ◌∷◌, if◌then◌else◌}
use stock_market_trading_sim.Common.Maps.{Map}
use stock_market_trading_sim.Double.{Double}
use stock_market_trading_sim.Sql.{expired, get_daily_time, get_date_time, ◌>>=◌}
use stock_market_trading_sim.Sql.Database.{
  RowId, is_waiting, OrderRow, expiry_logged, entry_logged, order_type_to_string,
  string_to_order_type, trigger_to_string, string_to_trigger, Environment,
}
use stock_market_trading_sim.Sql.Client.{zero_price, get_current_price, remove_waiting_order}
use stock_market_trading_sim.Sql.Market.{Session, Market, accumulate_order}
use stock_market_trading_sim.Sql.Trading.{log_message, with_database}
use stock_market_trading_sim.Sql.Loops.{process_continuous_trading}

module _ {P : Type 0} ⦃double : Double P⦄ (environment : Environment P) where
  -- A `Waiting_Order_Row`, whose columns were read as text.
  abbrev pub waiting_row : OrderRow P → OrderRow P
  waiting_row row = record row {
    order_type = order_type_to_string (string_to_order_type row.order_type);
    trigger_type = trigger_to_string (string_to_trigger row.trigger_type);
    price = environment.through_text row.price;
    trigger_price_lower = environment.through_text row.trigger_price_lower;
    trigger_price_upper = environment.through_text row.trigger_price_upper;
  }

  -- SELECT ... FROM orders WHERE order_status = 'WAITING'
  unfoldable pub get_waiting_orders : Map RowId (OrderRow P) → Map RowId (OrderRow P)
  get_waiting_orders [] = []
  get_waiting_orders ((order_id, row) ∷ orders) =
      let behind = get_waiting_orders orders in
      if is_waiting row.order_status then (order_id, waiting_row row) ∷ behind else behind

  abbrev pub on_session : (Session P → Option (Session P)) → Market P → Option (Market P)
  on_session change market =
      change market.session >>= (λ session. some (record market { session = session }))

  -- `remove_order_from_client_waiting_orders`
  abbrev pub remove_waiting : RowId → OrderRow P → Market P → Market P
  remove_waiting order_id row market = record market {
    session =
        with_database environment
          (remove_waiting_order row.client_id order_id market.session.database) market.session;
  }

  unfoldable pub expire : RowId → OrderRow P → Market P → Option (Market P)
  expire order_id row market =
      on_session (log_message environment (expiry_logged row.client_id order_id))
        (remove_waiting order_id row market)

  -- The order goes to its book, and is traded at once while trading is continuous.
  unfoldable pub enter : Bool → RowId → OrderRow P → P → Market P → Option (Market P)
  enter is_continuous order_id row current_price market = do
    logged ←
        on_session (log_message environment (entry_logged row.client_id order_id current_price))
          market
    let accumulated =
        accumulate_order (string_to_order_type row.order_type) order_id row
          (remove_waiting order_id row logged)
    (if is_continuous
        then process_continuous_trading environment row.action_id accumulated
        else some accumulated)

  -- The body of the loop over the waiting orders.
  unfoldable pub watch_order :
      Bool → (now_date now_daily : ℕ) → RowId → OrderRow P → Market P → Option (Market P)
  watch_order is_continuous now_date now_daily order_id row market =
      let current_price = get_current_price row.action_id market.session.database in
      if expired row.expiration_time_date row.expiration_time_daily now_date now_daily
      then expire order_id row market
      else if double.le current_price zero_price
      then some market
      else if double.le row.trigger_price_lower current_price
          && double.le current_price row.trigger_price_upper
      then enter is_continuous order_id row current_price market
      else some market

  unfoldable pub watch_orders :
      Bool → (now_date now_daily : ℕ) → Map RowId (OrderRow P) → Market P → Option (Market P)
  watch_orders is_continuous now_date now_daily [] market = some market
  watch_orders is_continuous now_date now_daily ((order_id, row) ∷ orders) market =
      watch_order is_continuous now_date now_daily order_id row market
      >>= (λ watched. watch_orders is_continuous now_date now_daily orders watched)

  -- A round, at time `now`.
  unfoldable pub watcher_pass : Bool → ℕ → Market P → Option (Market P)
  watcher_pass is_continuous now market =
      watch_orders is_continuous (get_date_time environment.localtime now)
        (get_daily_time environment.localtime now)
        (get_waiting_orders market.session.database.orders) market
