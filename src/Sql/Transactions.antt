-- ===== src/Sql/Transactions.antt =====
-- Src_SQL/market.cpp: the parts of a transaction, which only add orders.
use stock_market_trading_sim.Common.{◌+◌, ℕ, ◌≤◌, ◌≡◌, refl, ◌∙◌, ap, some, arith}
use stock_market_trading_sim.Common.Int.{ℤ}
use stock_market_trading_sim.Common.Keys.{id_key}
use stock_market_trading_sim.Common.Maps.{lookup}
use stock_market_trading_sim.Double.{Double}
use stock_market_trading_sim.Sql.{get_daily_time, get_date_time}
use stock_market_trading_sim.Sql.Database.{RowId, OrderType, OrderStatus, Environment, select_id}
use stock_market_trading_sim.Sql.Client.{with_status, add_completed_order}
use stock_market_trading_sim.Sql.Market.{Session}
use stock_market_trading_sim.Sql.Trading.{
  OrderInfo, order_row, exchange, log_transaction, add_completed,
}
use stock_market_trading_sim.Sql.Supply.{
  IsSupply, Affords, Keeps, next_id, with_order, emplace-other, get_new_order_id_lem,
  get_new_message_id_lem,
}
use stock_market_trading_sim.Sql.Tables.{SameTables-trans, update_portfolio-SameTables}

module _ {P : Type 0} ⦃double : Double P⦄ (environment : Environment P) where
  -- What a step does that only adds orders, and draws some ids at most.
  pub record Adds (count : ℕ) (session changed : Session P) : Type 0 where
    pub supplied : IsSupply environment changed
    pub keeps : Keeps session changed
    pub drawn_le : session.drawn ≤ changed.drawn
    pub drawn_within : changed.drawn ≤ session.drawn + count
    pub same_clients :
        (client : RowId)
        → select_id client changed.database.clients ≡ select_id client session.database.clients

  pub exchange-Adds :
      (action : RowId) (buyer seller : OrderInfo P) (now : ℕ) (quantity : ℤ) (session : Session P)
      → IsSupply environment session
      → Adds 0 session (exchange environment action buyer seller now quantity session)
  unfolding exchange
  exchange-Adds action buyer seller now quantity session supply =
      let same =
        SameTables-trans _ _ _
          (update_portfolio-SameTables environment OrderType.buy buyer.info_client _ quantity
            session.database)
          (update_portfolio-SameTables environment OrderType.sell seller.info_client _ quantity
            _) in
      record {
        supplied = record {
          injective = supply.injective;
          unused = λ n h k.
              ap (λ table. lookup (environment.generate_random_uint32 n) table) same.same_orders
              ∙ supply.unused n h k;
          unsaid = λ n h k.
              ap (λ table. lookup (environment.generate_random_uint32 n) table) same.same_messages
              ∙ supply.unsaid n h k;
        };
        keeps = λ id row h. ap (λ table. lookup id table) same.same_orders ∙ h;
        drawn_le = omega arith;
        drawn_within = omega arith;
        same_clients = same.same_clients;
      }

  pub log_transaction-Adds :
      (action : RowId) (buyer seller : OrderInfo P) (now : ℕ) (quantity : ℤ) (session : Session P)
      → IsSupply environment session
      → Affords environment 1 session
      → (logged : Session P) × (log_transaction environment action buyer seller now quantity session
          ≡ some logged)
        × Adds 1 session logged
  unfolding log_transaction
  log_transaction-Adds action buyer seller now quantity session supply room =
      rw (get_new_message_id_lem environment session supply room) (
        _,
        refl,
        record {
          supplied = record {
            injective = supply.injective;
            unused = λ n h k. supply.unused n (omega (arith, h)) k;
            unsaid = λ n h k.
                emplace-other (next_id environment session) (environment.generate_random_uint32 n) _
                  session.database.messages
                  (λ e.
                    omega (arith, h, supply.injective session.drawn n (omega (arith, h, k)) k e))
                ∙ supply.unsaid n (omega (arith, h)) k;
          };
          keeps = λ id row h. h;
          drawn_le = omega arith;
          drawn_within = omega arith;
          same_clients = λ client. refl;
        },
      )

  pub add_completed_lem :
      (type : OrderType) (action : RowId) (info : OrderInfo P) (now : ℕ) (quantity : ℤ)
      (session : Session P)
      → IsSupply environment session
      → Affords environment 1 session
      → add_completed environment type action info now quantity session
        ≡ some (
            with_order environment
              (with_status OrderStatus.completed (
                order_row environment type action info
                  (get_date_time environment.localtime now)
                  (get_daily_time environment.localtime now)
                  quantity
                  session.exchange_price))
              session)
  unfolding add_completed add_completed_order
  add_completed_lem type action info now quantity session supply room =
      rw (get_new_order_id_lem environment session supply room) refl
