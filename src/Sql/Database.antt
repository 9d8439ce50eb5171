-- ===== src/Sql/Database.antt =====
-- Src_SQL/database_management.cpp and order.cpp: the tables, and the queries that the market makes.
-- A table with a primary key is a map, an INSERT under a key that is there fails and changes nothing.
-- Of the clients only the balances are kept, and the table of actions, which none of this reads, is
-- left out. Foreign keys are not enforced (SQLite's default). A price that the text of a query cannot
-- spell (an infinity or a NaN) is left out, and so is an INTEGER of more than 64 bits.
use stock_market_trading_sim.Common.{
  ◌^◌, ◌<◌, ℕ, ◌-◌, ◌%◌, ◌≡◌, ◌↔◌, Bool, true, false, ◌&&◌, Option, none, some, List, String, arith,
  ltb, eqb, eqb_iff, if◌then◌else◌, is_some,
}
use stock_market_trading_sim.Common.Int.{ℤ, pos, negsuc}
use stock_market_trading_sim.Common.Keys.{Key, ◌==◌, symbol_key, id_key}
use stock_market_trading_sim.Common.Maps.{Map, lookup}
use stock_market_trading_sim.Double.{Double}
use stock_market_trading_sim.Sql.{Tm}

-- `ID`, of which -1 occurs as the result of a query only.
abbrev pub RowId : Type 0
RowId = ℕ

pub data OrderType : Type 0 where
  buy : OrderType
  sell : OrderType

pub data OrderTrigger : Type 0 where
  market : OrderTrigger
  limit : OrderTrigger
  stop : OrderTrigger
  limit_stop : OrderTrigger
  no_trigger : OrderTrigger

unfoldable pub order_type_to_string : OrderType → String
order_type_to_string OrderType.buy = "BUY"
order_type_to_string OrderType.sell = "SELL"

unfoldable pub string_to_order_type : String → OrderType
string_to_order_type text = if text == "SELL" then OrderType.sell else OrderType.buy

unfoldable pub trigger_to_string : OrderTrigger → String
trigger_to_string OrderTrigger.market = "MARKET"
trigger_to_string OrderTrigger.limit = "LIMIT"
trigger_to_string OrderTrigger.stop = "STOP"
trigger_to_string OrderTrigger.limit_stop = "LIMIT_STOP"
trigger_to_string OrderTrigger.no_trigger = "NO_TRIGGER"

unfoldable pub string_to_trigger : String → OrderTrigger
string_to_trigger text =
    if text == "MARKET"
    then OrderTrigger.market
    else if text == "LIMIT"
    then OrderTrigger.limit
    else if text == "STOP"
    then OrderTrigger.stop
    else if text == "LIMIT_STOP"
    then OrderTrigger.limit_stop
    else OrderTrigger.no_trigger

pub data OrderStatus : Type 0 where
  pending : OrderStatus
  waiting : OrderStatus
  completed : OrderStatus

abbrev pub is_pending : OrderStatus → Bool
is_pending OrderStatus.pending = true
is_pending _ = false

abbrev pub is_waiting : OrderStatus → Bool
is_waiting OrderStatus.waiting = true
is_waiting _ = false

-- The columns of `orders` behind its key.
pub record OrderRow (P : Type 0) : Type 0 where
  pub order_status : OrderStatus
  pub order_time_date : ℕ
  pub order_time_daily : ℕ
  pub client_id : RowId
  pub order_type : String
  pub quantity : ℤ
  pub action_id : RowId
  pub trigger_type : String
  pub price : P
  pub trigger_price_lower : P
  pub trigger_price_upper : P
  pub expiration_time_date : ℕ
  pub expiration_time_daily : ℕ

pub record PriceRow (P : Type 0) : Type 0 where
  pub of_action : RowId
  pub at_price : P
  pub date_time : ℕ
  pub daily_time : ℕ

-- What the message and the two notifications of a transaction say.
pub record Transaction (P : Type 0) : Type 0 where
  pub traded : ℤ
  pub traded_action : RowId
  pub traded_price : P
  pub buyer : RowId
  pub seller : RowId
  pub exchange_time : ℕ

-- The messages that the market and the watcher of waiting orders log.
pub data Logged (P : Type 0) : Type 0 where
  transaction_logged : Transaction P → Logged P
  expiry_logged : (client order_id : RowId) → Logged P
  entry_logged : (client order_id : RowId) (current_price : P) → Logged P

pub record Database (P : Type 0) : Type 0 where
  pub clients : Map RowId P
  pub client_portfolio : Map (RowId × RowId) ℤ
  pub prices : List (PriceRow P)
  pub orders : Map RowId (OrderRow P)
  pub messages : Map RowId (Logged P)

abbrev pub same_pair : RowId × RowId → RowId × RowId → Bool
same_pair (a, b) (c, d) = eqb a c && eqb b d

pub same_pair_iff : (j k : RowId × RowId) → (same_pair j k ≡ true) ↔ (j ≡ k)
same_pair_iff (a, b) (c, d) = ground (arith, eqb_iff a c, eqb_iff b d)

instance abbrev pub pair_key : Key (RowId × RowId)
pair_key = record { same = same_pair; same_iff = same_pair_iff }

-- `sqlite3_column_int`: the lower 32 bits of an INTEGER, as a signed number.
unfoldable pub column_int : ℤ → ℤ
column_int (pos n) =
    let low = n % 4294967296 in if ltb low 2147483648 then pos low else negsuc (4294967295 - low)
column_int (negsuc n) =
    let low = n % 4294967296 in if ltb low 2147483648 then negsuc low else pos (4294967295 - low)

-- The first column of the first row, by `execute_sql_query_int` and `execute_sql_query_id`.
unfoldable pub execute_sql_query_int : Option ℤ → ℤ
execute_sql_query_int none = negsuc 0
execute_sql_query_int (some value) = column_int value

unfoldable pub execute_sql_query_id : Option ℤ → ℤ
execute_sql_query_id none = negsuc 0
execute_sql_query_id (some value) = column_int value

unfoldable pub execute_sql_query_double : {P : Type 0} ⦃double : Double P⦄ → Option P → P
execute_sql_query_double ⦃double⦄ none = double.of_ℤ (negsuc 0)
execute_sql_query_double ⦃double⦄ (some value) = value

-- SELECT id FROM table WHERE id = {}
unfoldable pub select_id : {V : Type 0} → RowId → Map RowId V → Option ℤ
select_id id table = if is_some (lookup id table) then some (pos id) else none

-- What the queries of the market and the machine give it: SUM over the rows of a query that has
-- some, a REAL as `sqlite3_column_text` writes it and a stream reads it, the random numbers, the
-- clock, and localtime.
pub record Environment (P : Type 0) : Type 0 where
  pub sum : List P → P
  pub through_text : P → P
  -- the random numbers in the order of their draws, each of 32 bits
  pub generate_random_uint32 : ℕ → ℕ
  pub generate_random_uint32_lt : (n : ℕ) → generate_random_uint32 n < 2 ^ 32
  -- how many of them theorems take to be different; no definition reads it
  pub random_numbers : ℕ
  -- the rounds that a loop which draws an id is given
  pub redraws : ℕ
  pub get_current_time_ms : ℕ → ℕ
  pub localtime : ℕ → Tm
