-- ===== src/Sql/Trading.antt =====
-- Src_SQL/market.cpp: the transactions, and the bodies of the loops of process_fixing and
-- process_continuous_trading, which differ in the checks before a transaction. `none` is a run that
-- does not return (a new id that is taken) or that reads an order which is not in the tables.
use stock_market_trading_sim.Common.{
  ℕ, suc, Bool, not, ◌||◌, Option, none, some, List, ◌∷◌, if◌then◌else◌,
}
use stock_market_trading_sim.Common.Int.{ℤ, pos, ◌-ℤ◌, ltb_ℤ, leb_ℤ}
use stock_market_trading_sim.Common.Keys.{id_key}
use stock_market_trading_sim.Common.Maps.{lookup, emplace}
use stock_market_trading_sim.Double.{Double}
use stock_market_trading_sim.Sql.{get_daily_time, get_date_time, ◌>>=◌}
use stock_market_trading_sim.Sql.Database.{
  Logged, transaction_logged, RowId, OrderType, OrderTrigger, OrderStatus, OrderRow, PriceRow,
  Database, order_type_to_string, trigger_to_string, string_to_trigger, Environment,
}
use stock_market_trading_sim.Sql.Client.{
  add_completed_order, add_pending_order, remove_pending_order, update_portfolio,
}
use stock_market_trading_sim.Sql.Market.{
  Session, client_exists, get_new_order_id, get_new_message_id, get_price, resolve_execution_price,
}

-- What `get_order_info` writes and the loop reads from its stream.
pub record OrderInfo (P : Type 0) : Type 0 where
  pub info_id : RowId
  pub info_date : ℕ
  pub info_daily : ℕ
  pub info_client : RowId
  pub info_quantity : ℤ
  pub info_trigger : OrderTrigger
  pub info_price : P
  pub info_lower : P
  pub info_upper : P
  pub info_expiration_date : ℕ
  pub info_expiration_daily : ℕ

-- `std::min`
abbrev pub min_ℤ : ℤ → ℤ → ℤ
min_ℤ a b = if ltb_ℤ b a then b else a

-- The order in place of one that was traded, if it has quantity left over.
abbrev pub replaced : Option RowId → List RowId → List RowId
replaced none orders = orders
replaced (some left) orders = left ∷ orders

-- A round of the loop ends it, or makes a transaction.
pub data Round (P : Type 0) : Type 0 where
  stopped : Round P
  transacted : Session P → Option RowId → Option RowId → Round P

module _ {P : Type 0} ⦃double : Double P⦄ (environment : Environment P) where
  abbrev pub info_of : RowId → OrderRow P → OrderInfo P
  info_of order_id row = record {
    info_id = order_id;
    info_date = row.order_time_date;
    info_daily = row.order_time_daily;
    info_client = row.client_id;
    info_quantity = row.quantity;
    info_trigger = string_to_trigger row.trigger_type;
    info_price = environment.through_text row.price;
    info_lower = environment.through_text row.trigger_price_lower;
    info_upper = environment.through_text row.trigger_price_upper;
    info_expiration_date = row.expiration_time_date;
    info_expiration_daily = row.expiration_time_daily;
  }

  -- `none` is the empty string.
  unfoldable pub get_order_info : RowId → Database P → Option (OrderInfo P)
  get_order_info order_id database = elim (lookup order_id database.orders) [
    | none ↦ none
    | some row ↦ some (info_of order_id row)
  ]

  -- The arguments of the calls that add an order; the status is set by the call.
  abbrev pub order_row : OrderType → RowId → OrderInfo P → ℕ → ℕ → ℤ → P → OrderRow P
  order_row type action info date daily quantity price = record {
    order_status = OrderStatus.pending;
    order_time_date = date;
    order_time_daily = daily;
    client_id = info.info_client;
    order_type = order_type_to_string type;
    quantity = quantity;
    action_id = action;
    trigger_type = trigger_to_string info.info_trigger;
    price = price;
    trigger_price_lower = info.info_lower;
    trigger_price_upper = info.info_upper;
    expiration_time_date = info.info_expiration_date;
    expiration_time_daily = info.info_expiration_daily;
  }

  abbrev pub with_database : Database P → Session P → Session P
  with_database database session = record session { database = database }

  -- The price and the time of a transaction, as they enter the table of prices.
  abbrev pub execution : RowId → OrderInfo P → OrderInfo P → ℕ → Session P → PriceRow P
  execution action buyer seller now session = record {
    of_action = action;
    at_price =
        resolve_execution_price action buyer.info_trigger seller.info_trigger buyer.info_price
          seller.info_price session;
    date_time = get_date_time environment.localtime now;
    daily_time = get_daily_time environment.localtime now;
  }

  -- The execution price and the two updates of the portfolios.
  unfoldable pub exchange : RowId → OrderInfo P → OrderInfo P → ℕ → ℤ → Session P → Session P
  exchange action buyer seller now quantity session =
      let row = execution action buyer seller now session in
      let bought =
        update_portfolio environment OrderType.buy buyer.info_client row quantity
          session.database in
      record session {
        database =
            update_portfolio environment OrderType.sell seller.info_client row quantity bought;
        exchange_price = row.at_price;
        made = suc session.made;
      }

  -- The message of a transaction, with the two notifications that say the same.
  -- `log_message`, under a new id.
  abbrev pub log_message : Logged P → Session P → Option (Session P)
  log_message entry session = do
    (message_id, drawn) ← get_new_message_id environment session
    some (
        with_database
          (record drawn.database { messages = emplace message_id entry drawn.database.messages })
          drawn)

  unfoldable pub log_transaction :
      RowId → OrderInfo P → OrderInfo P → ℕ → ℤ → Session P → Option (Session P)
  log_transaction action buyer seller now quantity session =
      log_message
        (transaction_logged record {
          traded = quantity;
          traded_action = action;
          traded_price = session.exchange_price;
          buyer = buyer.info_client;
          seller = seller.info_client;
          exchange_time = now;
        })
        session

  -- The completed order of one side, at the time of the transaction.
  unfoldable pub add_completed :
      OrderType → RowId → OrderInfo P → ℕ → ℤ → Session P → Option (Session P)
  add_completed type action info now quantity session = do
    (order_id, drawn) ← get_new_order_id environment session
    some (
        with_database
          (add_completed_order order_id
            (order_row type action info (get_date_time environment.localtime now)
              (get_daily_time environment.localtime now) quantity session.exchange_price)
            drawn.database)
          drawn)

  -- A fresh order with what is left over of one side, at the old price and time.
  unfoldable pub leftover :
      OrderType → RowId → OrderInfo P → ℤ → Session P → Option (Option RowId × Session P)
  leftover type action info quantity session =
      if ltb_ℤ quantity info.info_quantity
      then (do
        (order_id, drawn) ← get_new_order_id environment session
        some (
          some order_id,
          with_database
              (add_pending_order order_id
                (order_row type action info info.info_date info.info_daily
                  (info.info_quantity -ℤ quantity) info.info_price)
                drawn.database)
              drawn,
        ))
      else some (none, session)

  -- The two completed orders, and the two orders that the transaction leaves.
  unfoldable pub close_orders :
      RowId → OrderInfo P → OrderInfo P → ℕ → ℤ → Session P → Option (Session P)
  close_orders action buyer seller now quantity session =
      let closed =
        with_database
          (remove_pending_order seller.info_client seller.info_id
            (remove_pending_order buyer.info_client buyer.info_id session.database))
          session in
      if ltb_ℤ (pos 0) quantity
      then add_completed OrderType.buy action buyer now quantity closed
        >>= (λ once. add_completed OrderType.sell action seller now quantity once)
      else some closed

  unfoldable pub transact : RowId → OrderInfo P → OrderInfo P → Session P → Option (Round P)
  transact action buyer seller session =
      let quantity = min_ℤ buyer.info_quantity seller.info_quantity in
      let now = environment.get_current_time_ms session.made in
      do
        logged ←
            log_transaction action buyer seller now quantity
              (exchange action buyer seller now quantity session)
        closed ← close_orders action buyer seller now quantity logged
        (buyer_left, again) ← leftover OrderType.buy action buyer quantity closed
        (seller_left, done) ← leftover OrderType.sell action seller quantity again
        some (transacted done buyer_left seller_left)

  abbrev pub clients_missing : OrderInfo P → OrderInfo P → Database P → Bool
  clients_missing buyer seller database =
      not (client_exists buyer.info_client database)
      || not (client_exists seller.info_client database)

  abbrev pub not_positive : OrderInfo P → OrderInfo P → Bool
  not_positive buyer seller =
      leb_ℤ buyer.info_quantity (pos 0) || leb_ℤ seller.info_quantity (pos 0)

  -- The body of the loop of `process_fixing`.
  unfoldable pub fixing_round : RowId → RowId → RowId → Session P → Option (Round P)
  fixing_round action buy_order sell_order session = do
    buyer ← get_order_info buy_order session.database
    seller ← get_order_info sell_order session.database
    (if clients_missing buyer seller session.database
          || double.lt buyer.info_price seller.info_price
          || not_positive buyer seller
        then some stopped
        else transact action buyer seller session)

  -- The body of the loop of `process_continuous_trading`.
  unfoldable pub continuous_round : RowId → RowId → RowId → Session P → Option (Round P)
  continuous_round action buy_order sell_order session =
      if double.lt (get_price buy_order session.database) (get_price sell_order session.database)
      then some stopped
      else do
        buyer ← get_order_info buy_order session.database
        seller ← get_order_info sell_order session.database
        (if clients_missing buyer seller session.database || not_positive buyer seller
            then some stopped
            else transact action buyer seller session)
