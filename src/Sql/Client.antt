-- ===== src/Sql/Client.antt =====
-- Src_SQL/client.cpp and action.cpp: the account of a client, in the tables. A query is its effect on
-- the rows that its WHERE selects.
use stock_market_trading_sim.Common.{
  Bool, false, not, ◌&&◌, ◌||◌, Option, none, some, List, [], ◌∷◌, ◌++◌, ltb, eqb, if◌then◌else◌,
}
use stock_market_trading_sim.Common.Int.{ℤ, pos, ◌+ℤ◌, ◌-ℤ◌, ltb_ℤ, leb_ℤ, same_ℤ}
use stock_market_trading_sim.Common.Keys.{◌==◌, symbol_key, id_key}
use stock_market_trading_sim.Common.Maps.{Map, lookup, erase, insert, emplace}
use stock_market_trading_sim.Double.{Double}
use stock_market_trading_sim.Sql.{max_number}
use stock_market_trading_sim.Sql.Database.{
  RowId, OrderType, OrderStatus, is_pending, is_waiting, OrderRow, PriceRow, Database, pair_key,
  execute_sql_query_int, execute_sql_query_id, execute_sql_query_double, Environment,
}

-- A row of one client: the last arguments of the functions that add an order.
abbrev pub with_status : {P : Type 0} → OrderStatus → OrderRow P → OrderRow P
with_status status row = record row { order_status = status }

-- INSERT INTO orders
unfoldable pub insert_order : {P : Type 0} → RowId → OrderRow P → Database P → Database P
insert_order order_id row database = record database {
  orders = emplace order_id row database.orders;
}

unfoldable pub add_completed_order : {P : Type 0} → RowId → OrderRow P → Database P → Database P
add_completed_order order_id row = insert_order order_id (with_status OrderStatus.completed row)

unfoldable pub add_pending_order : {P : Type 0} → RowId → OrderRow P → Database P → Database P
add_pending_order order_id row = insert_order order_id (with_status OrderStatus.pending row)

unfoldable pub add_waiting_order : {P : Type 0} → RowId → OrderRow P → Database P → Database P
add_waiting_order order_id row = insert_order order_id (with_status OrderStatus.waiting row)

-- DELETE FROM orders WHERE order_id = {} AND ... AND client_id = {}
abbrev pub delete_order :
    {P : Type 0}
    → (OrderStatus → Bool)
    → RowId
    → RowId
    → Map RowId (OrderRow P)
    → Map RowId (OrderRow P)
delete_order of_status client order_id orders = elim (lookup order_id orders) [
  | none ↦ orders
  | some row ↦
      if of_status row.order_status && eqb row.client_id client
      then erase order_id orders
      else orders
]

unfoldable pub remove_pending_order : {P : Type 0} → RowId → RowId → Database P → Database P
remove_pending_order client order_id database = record database {
  orders = delete_order is_pending client order_id database.orders;
}

unfoldable pub remove_waiting_order : {P : Type 0} → RowId → RowId → Database P → Database P
remove_waiting_order client order_id database = record database {
  orders = delete_order is_waiting client order_id database.orders;
}

-- SELECT quantity FROM client_portfolio, and the action_id of the same row.
unfoldable pub is_action_in_portfolio : {P : Type 0} → RowId → RowId → Database P → Bool
is_action_in_portfolio client action database =
    elim (lookup (client, action) database.client_portfolio) [
      | none ↦ same_ℤ (execute_sql_query_id none) (pos action)
      | some quantity ↦ same_ℤ (execute_sql_query_id (some (pos action))) (pos action)
    ]

unfoldable pub has_shares : {P : Type 0} → RowId → RowId → ℤ → Database P → Bool
has_shares client action quantity database =
    ltb_ℤ (pos 0) quantity
    && leb_ℤ quantity (execute_sql_query_int (lookup (client, action) database.client_portfolio))

-- ORDER BY date_time DESC, daily_time DESC
abbrev pub is_later : {P : Type 0} → PriceRow P → PriceRow P → Bool
is_later a b =
    ltb b.date_time a.date_time || (eqb b.date_time a.date_time && ltb b.daily_time a.daily_time)

-- The latest row of an action; of rows at one time SQLite may take any, here it is the first.
unfoldable pub latest : {P : Type 0} → RowId → List (PriceRow P) → Option (PriceRow P)
latest action [] = none
latest action (row ∷ rows) =
    let behind = latest action rows in
    if eqb row.of_action action
    then elim behind [
      | none ↦ some row
      | some other ↦ some (if is_later other row then other else row)
    ]
    else behind

unfoldable pub select_price : {P : Type 0} → RowId → Database P → Option P
select_price action database = elim (latest action database.prices) [
  | none ↦ none
  | some row ↦ some row.at_price
]

abbrev pub max_ℤ : ℤ → ℤ → ℤ
max_ℤ a b = if ltb_ℤ a b then b else a

module _ {P : Type 0} ⦃double : Double P⦄ where
  abbrev pub same_price : P → P → Bool
  same_price a b = double.le a b && double.le b a

  abbrev pub zero_price : P
  zero_price = double.ratio 0 1

  abbrev pub safety_percentage : P
  safety_percentage = double.ratio 11 10

  unfoldable pub get_balance : RowId → Database P → P
  get_balance client database = execute_sql_query_double (lookup client database.clients)

  unfoldable pub get_current_price : RowId → Database P → P
  get_current_price action database = execute_sql_query_double (select_price action database)

  -- UPDATE clients SET balance = {} WHERE client_id = {}
  abbrev pub set_balance : (P → P) → RowId → Database P → Database P
  set_balance change client database = elim (lookup client database.clients) [
    | none ↦ database
    | some balance ↦ record database { clients = insert client (change balance) database.clients }
  ]

  unfoldable pub deposit : RowId → P → Database P → Database P
  deposit client amount database =
      if double.lt zero_price amount
      then set_balance (λ balance. double.add balance amount) client database
      else database

  unfoldable pub withdraw : RowId → P → Database P → Database P
  withdraw client amount = set_balance (λ balance. double.sub balance amount) client

  -- The CASE of `can_afford`'s query.
  unfoldable pub reserved_price : OrderRow P → Database P → P
  reserved_price order database =
      if order.trigger_type == "MARKET"
      then double.mul
          (elim (select_price order.action_id database) [ none ↦ zero_price | some price ↦ price ])
          safety_percentage
      else order.price

  -- The terms of its SUM.
  unfoldable pub reservations : RowId → Map RowId (OrderRow P) → Database P → List P
  reservations client [] database = []
  reservations client ((order_id, order) ∷ orders) database =
      let behind = reservations client orders database in
      if eqb order.client_id client
        && (is_pending order.order_status || is_waiting order.order_status)
      then double.mul (double.of_ℤ order.quantity) (reserved_price order database) ∷ behind
      else behind

  module _ (environment : Environment P) where
    abbrev pub coalesced_sum : List P → P
    coalesced_sum [] = zero_price
    coalesced_sum (term ∷ terms) = environment.sum (term ∷ terms)

    unfoldable pub available_balance : RowId → Database P → P
    available_balance client database = elim (lookup client database.clients) [
      | none ↦ execute_sql_query_double none
      | some balance ↦
          execute_sql_query_double (
            some
              (double.sub balance (coalesced_sum (reservations client database.orders database))))
    ]

    -- The end of `can_afford`: the amount is not negative, and it is there.
    abbrev pub affords : RowId → P → Database P → Bool
    affords client amount database =
        not (double.lt amount zero_price) && double.le amount (available_balance client database)

    -- The action `none` is the argument -1.
    unfoldable pub can_afford : RowId → ℤ → P → Option RowId → Database P → Bool
    can_afford client quantity price none database =
        affords client (double.mul (double.of_ℤ quantity) price) database
    can_afford client quantity price (some action) database =
        let current_price = get_current_price action database in
        if same_price price (double.of_ℤ (pos max_number))
        then not (double.le current_price zero_price)
          && affords client
              (double.mul (double.mul (double.of_ℤ quantity) current_price) safety_percentage)
              database
        else affords client (double.mul (double.of_ℤ quantity) price) database

  -- SELECT 1 FROM prices WHERE action_id = {} AND price = {} AND daily_time = {} AND date_time = {}
  unfoldable pub price_exists : PriceRow P → List (PriceRow P) → Bool
  price_exists new [] = false
  price_exists new (row ∷ rows) =
      eqb row.of_action new.of_action
        && same_price row.at_price new.at_price
        && eqb row.daily_time new.daily_time
        && eqb row.date_time new.date_time
      || price_exists new rows

  -- The ends of `add_action` and `remove_action`.
  unfoldable pub add_price : PriceRow P → Database P → Database P
  add_price row database =
      if price_exists row database.prices
      then database
      else record database { prices = database.prices ++ row ∷ [] }

  -- UPDATE client_portfolio SET quantity = {} WHERE client_id = {} AND action_id = {}
  abbrev pub set_quantity : (ℤ → ℤ) → RowId → RowId → Database P → Database P
  set_quantity change client action database =
      elim (lookup (client, action) database.client_portfolio) [
        | none ↦ database
        | some quantity ↦ record database {
          client_portfolio = insert (client, action) (change quantity) database.client_portfolio;
        }
      ]

  unfoldable pub add_action : RowId → PriceRow P → ℤ → Database P → Database P
  add_action client row quantity database = add_price row (
      if is_action_in_portfolio client row.of_action database
      then set_quantity (λ held. held +ℤ quantity) client row.of_action database
      else record database {
        client_portfolio = emplace (client, row.of_action) quantity database.client_portfolio;
      })

  unfoldable pub remove_action : RowId → PriceRow P → ℤ → Database P → Database P
  remove_action client row quantity database = add_price row (
      if is_action_in_portfolio client row.of_action database
      then set_quantity (λ held. max_ℤ (held -ℤ quantity) (pos 0)) client row.of_action database
      else database)

  -- The row has the action, the price and the time.
  unfoldable pub update_portfolio :
      Environment P → OrderType → RowId → PriceRow P → ℤ → Database P → Database P
  update_portfolio environment OrderType.buy client row quantity database =
      if can_afford environment client quantity row.at_price (some row.of_action) database
      then add_action client row quantity
          (withdraw client (double.mul row.at_price (double.of_ℤ quantity)) database)
      else database
  update_portfolio environment OrderType.sell client row quantity database =
      if has_shares client row.of_action quantity database
      then remove_action client row quantity
          (deposit client (double.mul row.at_price (double.of_ℤ quantity)) database)
      else database
