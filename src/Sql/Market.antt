-- ===== src/Sql/Market.antt =====
-- Src_SQL/market.cpp: the books of pending orders and their order of priority. An entry of a book is
-- the id of its order, all else of it is read in the tables.
use stock_market_trading_sim.Common.{
  ℕ, zero, suc, Bool, true, false, not, Option, none, some, List, [], ◌∷◌, eqb, if◌then◌else◌,
}
use stock_market_trading_sim.Common.Int.{ℤ, pos, negsuc, ltb_ℤ, same_ℤ}
use stock_market_trading_sim.Common.Keys.{id_key}
use stock_market_trading_sim.Common.Maps.{Map, lookup, insert, get_or}
use stock_market_trading_sim.Double.{Double}
use stock_market_trading_sim.Sql.Database.{
  RowId, OrderType, OrderTrigger, OrderRow, Database, select_id, execute_sql_query_id,
  execute_sql_query_double, Environment,
}
use stock_market_trading_sim.Sql.Client.{
  same_price, zero_price, get_current_price, add_pending_order, remove_pending_order,
}

-- The state that a transaction changes, with the number of random ids drawn and of transactions made.
pub record Session (P : Type 0) : Type 0 where
  pub database : Database P
  pub exchange_price : P
  pub drawn : ℕ
  pub made : ℕ

abbrev pub Books : Type 0
Books = Map RowId (List RowId)

pub record Market (P : Type 0) : Type 0 where
  pub session : Session P
  pub buy_orders : Books
  pub sell_orders : Books

unfoldable pub client_exists : {P : Type 0} → RowId → Database P → Bool
client_exists client database =
    same_ℤ (execute_sql_query_id (select_id client database.clients)) (pos client)

module _ {P : Type 0} (environment : Environment P) where
  -- The loop of `get_new_order_id`: its query is of the first id, so the answer stays as it is.
  unfoldable pub redraw : ℕ → Bool → RowId → Session P → Option (RowId × Session P)
  redraw rounds false id session = some (id, session)
  redraw zero true id session = none
  redraw (suc rounds) true id session =
      redraw rounds true (environment.generate_random_uint32 session.drawn)
        (record session { drawn = suc session.drawn })

  abbrev pub get_new_id : {V : Type 0} → Map RowId V → Session P → Option (RowId × Session P)
  get_new_id table session =
      let drawn_id = environment.generate_random_uint32 session.drawn in
      redraw environment.redraws
        (not (same_ℤ (execute_sql_query_id (select_id drawn_id table)) (negsuc 0))) drawn_id
        (record session { drawn = suc session.drawn })

  unfoldable pub get_new_order_id : Session P → Option (RowId × Session P)
  get_new_order_id session = get_new_id session.database.orders session

  unfoldable pub get_new_message_id : Session P → Option (RowId × Session P)
  get_new_message_id session = get_new_id session.database.messages session

-- `find_if` and `erase`
unfoldable pub erase_order_id : RowId → List RowId → List RowId
erase_order_id order_id [] = []
erase_order_id order_id (own ∷ orders) =
    let behind = own ∷ erase_order_id order_id orders in if eqb own order_id then orders else behind

-- What the comparators read of an order: its price, its date and its time of the day.
abbrev pub Rank : Type 0 → Type 0
Rank P = P × ℤ × ℤ

module _ {P : Type 0} ⦃double : Double P⦄ where
  unfoldable pub get_price : RowId → Database P → P
  get_price order_id database = elim (lookup order_id database.orders) [
    | none ↦ execute_sql_query_double none
    | some row ↦ execute_sql_query_double (some row.price)
  ]

  unfoldable pub get_date_order_time : RowId → Database P → ℤ
  get_date_order_time order_id database = elim (lookup order_id database.orders) [
    | none ↦ execute_sql_query_id none
    | some row ↦ execute_sql_query_id (some (pos row.order_time_date))
  ]

  unfoldable pub get_daily_order_time : RowId → Database P → ℤ
  get_daily_order_time order_id database = elim (lookup order_id database.orders) [
    | none ↦ execute_sql_query_id none
    | some row ↦ execute_sql_query_id (some (pos row.order_time_daily))
  ]

  abbrev pub rank : Database P → RowId → Rank P
  rank database order_id = (
    get_price order_id database,
    get_date_order_time order_id database,
    get_daily_order_time order_id database,
  )

  -- `buy_order_priority` and `sell_order_priority`, of what they read.
  unfoldable pub order_priority : OrderType → Rank P → Rank P → Bool
  order_priority OrderType.buy (price, date, daily) (price', date', daily') =
      if not (same_price price price')
      then double.lt price' price
      else if not (same_ℤ date date')
      then ltb_ℤ date date'
      else ltb_ℤ daily daily'
  order_priority OrderType.sell (price, date, daily) (price', date', daily') =
      if not (same_price price price')
      then double.lt price price'
      else if not (same_ℤ date date')
      then ltb_ℤ date date'
      else ltb_ℤ daily daily'

  -- `insert` at the place of `lower_bound`: the first entry that does not go before the new one. The
  -- search needs a list in order of priority, and finds that place in one.
  unfoldable pub insert_order_id : OrderType → Database P → RowId → List RowId → List RowId
  insert_order_id type database new [] = new ∷ []
  insert_order_id type database new (own ∷ orders) =
      let behind = own ∷ insert_order_id type database new orders in
      if order_priority type (rank database own) (rank database new)
      then behind
      else new ∷ own ∷ orders

  -- The row has the client, the type, the action and the rest of the arguments.
  unfoldable pub accumulate_order : OrderType → RowId → OrderRow P → Market P → Market P
  accumulate_order type order_id row market =
      let session = record market.session {
        database = add_pending_order order_id row market.session.database;
      } in
      let placed = λ (orders : List RowId). insert_order_id type session.database order_id orders in
      if not (client_exists row.client_id market.session.database) then market else elim type [
        | OrderType.buy ↦ record market {
          session = session;
          buy_orders =
              insert row.action_id (placed (get_or row.action_id [] market.buy_orders))
                market.buy_orders;
        }
        | OrderType.sell ↦ record market {
          session = session;
          sell_orders =
              insert row.action_id (placed (get_or row.action_id [] market.sell_orders))
                market.sell_orders;
        }
      ]

  unfoldable pub deaccumulate_order : RowId → RowId → OrderType → RowId → Market P → Market P
  deaccumulate_order client order_id type action market =
      let session = record market.session {
        database = remove_pending_order client order_id market.session.database;
      } in
      if not (client_exists client market.session.database) then market else elim type [
        | OrderType.buy ↦ record market {
          session = session;
          buy_orders =
              insert action (erase_order_id order_id (get_or action [] market.buy_orders))
                market.buy_orders;
        }
        | OrderType.sell ↦ record market {
          session = session;
          sell_orders =
              insert action (erase_order_id order_id (get_or action [] market.sell_orders))
                market.sell_orders;
        }
      ]

  unfoldable pub resolve_execution_price :
      RowId → OrderTrigger → OrderTrigger → P → P → Session P → P
  resolve_execution_price action OrderTrigger.market OrderTrigger.market buyer_price seller_price
        s =
      let reference_price = get_current_price action s.database in
      if double.lt zero_price reference_price then reference_price else s.exchange_price
  resolve_execution_price action buyer OrderTrigger.market buyer_price seller_price s = buyer_price
  resolve_execution_price action buyer seller buyer_price seller_price s = seller_price
