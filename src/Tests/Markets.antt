-- ===== src/Tests/Markets.antt =====
-- A market with one action and two clients, in whole cents.
use stock_market_trading_sim.Common.{◌^◌, ◌%◌, ◌+◌, ◌≡◌, refl, false, some, List, [], ◌∷◌, arith}
use stock_market_trading_sim.Common.Int.{pos, ◌+ℤ◌, ◌-ℤ◌, ◌*ℤ◌}
use stock_market_trading_sim.Common.Keys.{id_key}
use stock_market_trading_sim.Common.Maps.{lookup, insert, emplace, get_or}
use stock_market_trading_sim.Double.Cents.{Cents, num, cents_double, Cents-IsOrdered, on_numbers}
use stock_market_trading_sim.Sql.{Tm, get_daily_time, get_date_time}
use stock_market_trading_sim.Sql.Database.{
  select_id, RowId, OrderType, OrderStatus, OrderRow, Database, Environment, order_type_to_string,
  string_to_trigger, execute_sql_query_double, execute_sql_query_int, execute_sql_query_id,
  column_int,
}
use stock_market_trading_sim.Sql.Market.{
  Session, Market, client_exists, accumulate_order, insert_order_id, resolve_execution_price,
}
use stock_market_trading_sim.Sql.Trading.{info_of, execution, exchange}
use stock_market_trading_sim.Sql.Loops.{process_continuous_trading, process_fixing}
use stock_market_trading_sim.Sql.Supply.{IsSupply, Affords}
use stock_market_trading_sim.Sql.Invariant.{IsMarket, queues-with}
use stock_market_trading_sim.Sql.Continuous.{Traded, process_continuous_trading-Traded}
use stock_market_trading_sim.Sql.Fixing.{IsFixed, process_fixing-IsFixed}
use stock_market_trading_sim.Sql.Entering.{IsEntry, Entered, accumulate_order-Entered}
use stock_market_trading_sim.Sql.Settlement.{held}
use stock_market_trading_sim.Sql.Shares.{settled, pays, exchange-settled}
use stock_market_trading_sim.Sql.Reach.{opened, entering, at_opening, Reaches-trades}
use stock_market_trading_sim.Sql.Client.{
  update_portfolio, can_afford, available_balance, reservations, reserved_price, has_shares,
  add_action, remove_action, withdraw, get_current_price, latest, select_price, add_price,
  price_exists, deposit, is_action_in_portfolio,
}

abbrev pub total_cents : List Cents → Cents
total_cents [] = num (pos 0)
total_cents (term ∷ terms) = on_numbers ◌+ℤ◌ term (total_cents terms)

abbrev pub noon : Tm
noon = record { tm_year = 125; tm_mon = 2; tm_mday = 18; tm_hour = 12; tm_min = 0; tm_sec = 0 }

-- The random ids count from 1000, in 32 bits; a run may draw a hundred.
abbrev pub exchange_floor : Environment Cents
exchange_floor = record {
  sum = total_cents;
  through_text = λ price. price;
  generate_random_uint32 = λ n. (1000 + n) % 2 ^ 32;
  generate_random_uint32_lt = λ n. omega arith;
  random_numbers = 100;
  redraws = 2;
  get_current_time_ms = λ n. n;
  localtime = λ seconds. noon;
}

-- Ten units at 12.00, or four at 11.00.
abbrev pub bid : OrderRow Cents
bid = record {
  order_status = OrderStatus.pending;
  order_time_date = 46500;
  order_time_daily = 100;
  client_id = 1;
  order_type = "BUY";
  quantity = pos 10;
  action_id = 7;
  trigger_type = "LIMIT";
  price = num (pos 1200);
  trigger_price_lower = num (pos 0);
  trigger_price_upper = num (pos 6553500);
  expiration_time_date = 65535;
  expiration_time_daily = 0;
}

abbrev ask : OrderRow Cents
ask = record bid { client_id = 2; order_type = "SELL"; quantity = pos 4; price = num (pos 1100) }

-- The buyer has 150.00, of which the bid reserves 120.00.
abbrev pub tables : Database Cents
tables = record {
  clients = (1, num (pos 15000)) ∷ (2, num (pos 0)) ∷ [];
  client_portfolio = ((2, 7), pos 50) ∷ [];
  prices =
      record { of_action = 7; at_price = num (pos 1100); date_time = 46499; daily_time = 0 } ∷ [];
  orders = (101, bid) ∷ (102, ask) ∷ [];
  messages = [];
}

abbrev pub session : Session Cents
session = record { database = tables; exchange_price = num (pos 0); drawn = 0; made = 0 }

abbrev books : Market Cents
books = record {
  session = session;
  buy_orders = (7, 101 ∷ []) ∷ [];
  sell_orders = (7, 102 ∷ []) ∷ [];
}

session-IsSupply : IsSupply exchange_floor session
unfolding lookup
session-IsSupply = record {
  injective = λ i j k l h. omega (arith, k, l, h);
  unused = λ n h k. ground (arith, k);
  unsaid = λ n h k. refl;
}

books-IsMarket : IsMarket exchange_floor books
unfolding lookup insert get_or order_type_to_string
books-IsMarket = record {
  supplied = session-IsSupply;
  buys =
      queues-with exchange_floor OrderType.buy 7 [] (101 ∷ []) tables
        (
          (
            record {
              row = bid;
              found = refl;
              still_pending = refl;
              of_type = refl;
              of_action = refl;
              exact = refl;
            },
            tt,
            tt,
          ),
          tt,
        )
        (λ other h. (tt, tt));
  sells =
      queues-with exchange_floor OrderType.sell 7 [] (102 ∷ []) tables
        (
          (
            record {
              row = ask;
              found = refl;
              still_pending = refl;
              of_type = refl;
              of_action = refl;
              exact = refl;
            },
            tt,
            tt,
          ),
          tt,
        )
        (λ other h. (tt, tt));
}

books-room : Affords exchange_floor 10 session
books-room = omega arith

process_continuous_trading-Traded_example :
    (later : Market Cents) × (process_continuous_trading exchange_floor 7 books ≡ some later)
    × Traded exchange_floor 7 books later
unfolding get_or lookup
process_continuous_trading-Traded_example =
    process_continuous_trading-Traded exchange_floor 7 books books-IsMarket books-room

process_fixing-IsFixed_example :
    (later : Market Cents) × (process_fixing exchange_floor books ≡ some later)
    × IsMarket exchange_floor later
    × ((action : RowId) → IsFixed exchange_floor action later)
unfolding get_or lookup
process_fixing-IsFixed_example =
    process_fixing-IsFixed exchange_floor books books-IsMarket books-room

-- Another bid, under a new id.
late_bid-IsEntry : IsEntry exchange_floor books OrderType.buy 103 (record bid { quantity = pos 3 })
unfolding lookup order_type_to_string
late_bid-IsEntry = record {
  is_new = refl;
  not_drawn = λ n h k e. omega (arith, k, e);
  of_type = refl;
  exact = refl;
}

accumulate_order-Entered_example :
    IsMarket exchange_floor
      (accumulate_order OrderType.buy 103 (record bid { quantity = pos 3 }) books)
    × Entered exchange_floor OrderType.buy 103
        (record bid { quantity = pos 3 })
        books
        (accumulate_order OrderType.buy 103 (record bid { quantity = pos 3 }) books)
        (client_exists 1 tables)
accumulate_order-Entered_example =
    accumulate_order-Entered exchange_floor Cents-IsOrdered OrderType.buy 103
      (record bid { quantity = pos 3 }) books late_bid-IsEntry books-IsMarket

-- The bid trades four units at 11.00: of the buyer's 150.00 the bid itself still reserves 120.00, so
-- the purchase is refused, while the seller is paid and gives the shares away.
abbrev after_exchange : Database Cents
after_exchange =
    (exchange exchange_floor 7 (info_of exchange_floor 101 bid) (info_of exchange_floor 102 ask) 0
      (pos 4) session).database

not_paid :
    pays exchange_floor
      (info_of exchange_floor 101 bid)
      (execution exchange_floor 7
        (info_of exchange_floor 101 bid)
        (info_of exchange_floor 102 ask)
        0
        session)
      (pos 4)
      tables
    ≡ false
unfolding can_afford resolve_execution_price string_to_trigger ◌*ℤ◌ available_balance lookup
    execute_sql_query_double reservations reserved_price ◌-ℤ◌ ◌+ℤ◌
not_paid = refl

shares_lost : held 1 7 after_exchange +ℤ held 2 7 after_exchange ≡ pos 46
unfolding can_afford resolve_execution_price string_to_trigger ◌*ℤ◌ available_balance lookup
    execute_sql_query_double reservations reserved_price ◌-ℤ◌ ◌+ℤ◌ exchange update_portfolio
    has_shares execute_sql_query_int column_int remove_action add_price emplace insert add_action
    deposit get_current_price is_action_in_portfolio latest price_exists select_price withdraw
    execute_sql_query_id get_daily_time get_date_time
shares_lost = refl

seller_paid : lookup 2 after_exchange.clients ≡ some (num (pos 4400))
unfolding can_afford resolve_execution_price string_to_trigger ◌*ℤ◌ available_balance lookup
    execute_sql_query_double reservations reserved_price ◌-ℤ◌ ◌+ℤ◌ exchange update_portfolio
    has_shares execute_sql_query_int column_int remove_action add_price emplace insert add_action
    deposit get_current_price is_action_in_portfolio latest price_exists select_price withdraw
    execute_sql_query_id get_daily_time get_date_time
seller_paid = refl

exchange-settled_example :
    held 2 7 after_exchange
    ≡ settled exchange_floor
        (info_of exchange_floor 101 bid)
        (info_of exchange_floor 102 ask)
        (execution exchange_floor 7
          (info_of exchange_floor 101 bid)
          (info_of exchange_floor 102 ask)
          0
          session)
        (pos 4)
        tables
        2
        7
unfolding lookup
exchange-settled_example =
    exchange-settled exchange_floor 7 (info_of exchange_floor 101 bid)
      (info_of exchange_floor 102 ask) 0 (pos 4) session 2 7 (omega arith)
      (omega arith, omega arith) (λ e. omega (arith, e))

-- The late bid enters at an empty book.
first_bid-IsEntry : IsEntry exchange_floor (opened exchange_floor session) OrderType.buy 103 bid
unfolding lookup order_type_to_string
first_bid-IsEntry = record {
  is_new = refl;
  not_drawn = λ n h k e. omega (arith, k, e);
  of_type = refl;
  exact = refl;
}

abbrev one_bid : Market Cents
one_bid = accumulate_order OrderType.buy 103 bid (opened exchange_floor session)

one_bid-room : Affords exchange_floor 50 one_bid.session
unfolding accumulate_order client_exists execute_sql_query_id select_id lookup column_int
one_bid-room = omega arith

Reaches-trades_example :
    IsMarket exchange_floor one_bid
    × ((later : Market Cents) × (process_continuous_trading exchange_floor 7 one_bid ≡ some later)
        × IsFixed exchange_floor 7 later)
    × ((later : Market Cents) × (process_fixing exchange_floor one_bid ≡ some later)
        × ((other : RowId) → IsFixed exchange_floor other later))
unfolding accumulate_order client_exists execute_sql_query_id select_id lookup column_int get_or
    insert insert_order_id
Reaches-trades_example =
    Reaches-trades exchange_floor Cents-IsOrdered session one_bid 7 session-IsSupply
      (entering (opened exchange_floor session) OrderType.buy 103 bid at_opening first_bid-IsEntry)
      (omega (arith, one_bid-room)) (omega (arith, one_bid-room))
