-- ===== src/Sql/Waiting.antt =====
-- Src_SQL/server.cpp: what logging and the removal of a waiting order do to the market.
use mathlib.Core.Option.{some-injective}
use stock_market_trading_sim.Common.{
  ◌≤◌, ◌+◌, ℕ, ◌≡◌, refl, sym, ◌∙◌, ap, true, ◌&&◌, none, some, arith, eqb, eqb_iff,
}
use stock_market_trading_sim.Common.Keys.{id_key}
use stock_market_trading_sim.Common.Maps.{Map, lookup, lookup-erase}
use stock_market_trading_sim.Double.{Double}
use stock_market_trading_sim.Sql.Database.{
  RowId, OrderType, OrderStatus, is_waiting, OrderRow, Logged, Database, Environment,
}
use stock_market_trading_sim.Sql.Client.{remove_waiting_order, delete_order}
use stock_market_trading_sim.Sql.Market.{Market}
use stock_market_trading_sim.Sql.Trading.{log_message}
use stock_market_trading_sim.Sql.Watcher.{waiting_row, on_session, remove_waiting}
use stock_market_trading_sim.Sql.Supply.{
  Affords, next_id, emplace-other, get_new_message_id_lem, delete_order-other, delete_order-none,
}
use stock_market_trading_sim.Sql.Invariant.{IsMarket, resting_orders, IsQueue-moved, queue}

module _ {P : Type 0} ⦃double : Double P⦄ (environment : Environment P) where
  -- A step that concerns one waiting order: the market's invariant is kept, and so are the other
  -- waiting orders. It draws some ids at most, and some orders at most enter the books.
  pub record Watched (draws grows : ℕ) (order_id : RowId) (market later : Market P) : Type 0 where
    pub is_market : IsMarket environment later
    pub drawn_within : later.session.drawn ≤ market.session.drawn + draws
    pub grown :
        (action : RowId) → resting_orders action later ≤ resting_orders action market + grows
    pub still_waiting :
        (id : RowId) (row : OrderRow P)
        → (order_id ≡ id → ⊥)
        → row.order_status ≡ OrderStatus.waiting
        → lookup id market.session.database.orders ≡ some row
        → lookup id later.session.database.orders ≡ some row

  pub unwatched :
      (order_id : RowId) (market : Market P)
      → IsMarket environment market
      → Watched 0 0 order_id market market
  unwatched order_id market m = record {
    is_market = m;
    drawn_within = omega arith;
    grown = λ action. omega arith;
    still_waiting = λ id row h k l. l;
  }

  pub Watched-within :
      (draws grows draws' grows' : ℕ) (order_id : RowId) (market later : Market P)
      → draws ≤ draws'
      → grows ≤ grows'
      → Watched draws grows order_id market later
      → Watched draws' grows' order_id market later
  Watched-within draws grows draws' grows' order_id market later h k w = record {
    is_market = w.is_market;
    drawn_within = omega (arith, h, w.drawn_within);
    grown = λ action. omega (arith, k, w.grown action);
    still_waiting = w.still_waiting;
  }

  pub Watched-trans :
      (draws grows draws' grows' : ℕ) (order_id : RowId) (first second third : Market P)
      → Watched draws grows order_id first second
      → Watched draws' grows' order_id second third
      → Watched (draws + draws') (grows + grows') order_id first third
  Watched-trans draws grows draws' grows' order_id first second third a b = record {
    is_market = b.is_market;
    drawn_within = omega (arith, a.drawn_within, b.drawn_within);
    grown = λ action. omega (arith, a.grown action, b.grown action);
    still_waiting = λ id row h k l. b.still_waiting id row h k (a.still_waiting id row h k l);
  }

  -- A message changes no order.
  pub logged-Watched :
      (order_id : RowId) (entry : Logged P) (market : Market P)
      → IsMarket environment market
      → Affords environment 1 market.session
      → (later : Market P) × (on_session environment (log_message environment entry) market
          ≡ some later)
        × (later.session.database.orders ≡ market.session.database.orders)
        × Watched 1 0 order_id market later
  logged-Watched order_id entry market m room =
      rw (get_new_message_id_lem environment market.session m.supplied room) (
        _,
        refl,
        refl,
        record {
          is_market = record {
            supplied = record {
              injective = m.supplied.injective;
              unused = λ n h k. m.supplied.unused n (omega (arith, h)) k;
              unsaid = λ n h k.
                  emplace-other (next_id environment market.session)
                    (environment.generate_random_uint32 n) _ market.session.database.messages
                    (λ e. omega (
                      arith,
                      h,
                      m.supplied.injective market.session.drawn n (omega (arith, h, k)) k e,
                    ))
                  ∙ m.supplied.unsaid n (omega (arith, h)) k;
            };
            buys = λ action.
                IsQueue-moved environment OrderType.buy action (queue action market.buy_orders)
                  market.session.database _ (λ id row h e p. h) (m.buys action);
            sells = λ action.
                IsQueue-moved environment OrderType.sell action (queue action market.sell_orders)
                  market.session.database _ (λ id row h e p. h) (m.sells action);
          };
          drawn_within = omega arith;
          grown = λ action. omega arith;
          still_waiting = λ id row h k l. l;
        },
      )

  -- The order is there, waits, and is the client's.
  pub record Waits (market : Market P) (order_id : RowId) (row : OrderRow P) : Type 0 where
    pub stored : OrderRow P
    pub found : lookup order_id market.session.database.orders ≡ some stored
    pub is_wait : stored.order_status ≡ OrderStatus.waiting
    pub is_row : row ≡ waiting_row environment stored

  pending_apart :
      (id other : RowId) (row stored : OrderRow P) (database : Database P)
      → lookup id database.orders ≡ some stored
      → stored.order_status ≡ OrderStatus.waiting
      → lookup other database.orders ≡ some row
      → row.order_status ≡ OrderStatus.pending
      → id ≡ other
      → ⊥
  pending_apart id other row stored database h w k p e =
      let same : stored ≡ row =
        some-injective stored row (sym h ∙ ap (λ i. lookup i database.orders) e ∙ k) in
      let clash : OrderStatus.waiting ≡ OrderStatus.pending =
        sym w ∙ ap OrderRow.order_status same ∙ p in
      absurd (ground (arith, ap is_waiting clash))

  deleted :
      (order_id : RowId) (row stored : OrderRow P) (orders : Map RowId (OrderRow P))
      → lookup order_id orders ≡ some stored
      → stored.order_status ≡ OrderStatus.waiting
      → stored.client_id ≡ row.client_id
      → lookup order_id (delete_order is_waiting row.client_id order_id orders) ≡ none
  deleted order_id row stored orders h w same =
      let test : is_waiting stored.order_status && eqb stored.client_id row.client_id ≡ true =
        rw w (ground (arith, same, eqb_iff stored.client_id row.client_id)) in
      rw (h, delete_order)
        (rw test (ground (arith, lookup-erase order_id order_id orders, eqb_iff order_id order_id)))

  pub removed-Watched :
      (order_id : RowId) (row : OrderRow P) (market : Market P)
      → Waits market order_id row
      → IsMarket environment market
      → Watched 0 0 order_id market (remove_waiting environment order_id row market)
        × (lookup order_id (remove_waiting environment order_id row market).session.database.orders
            ≡ none)
  unfolding remove_waiting_order
  removed-Watched order_id row market w m = (
    record {
      is_market = record {
        supplied = record {
          injective = m.supplied.injective;
          unused = λ n h k.
              delete_order-none is_waiting row.client_id order_id
                (environment.generate_random_uint32 n) market.session.database.orders
                (m.supplied.unused n h k);
          unsaid = m.supplied.unsaid;
        };
        buys = λ action.
            IsQueue-moved environment OrderType.buy action (queue action market.buy_orders)
              market.session.database _
              (λ id stored h e p.
                delete_order-other is_waiting row.client_id order_id id
                  market.session.database.orders
                  (pending_apart order_id id stored w.stored market.session.database w.found
                    w.is_wait h p)
                ∙ h)
              (m.buys action);
        sells = λ action.
            IsQueue-moved environment OrderType.sell action (queue action market.sell_orders)
              market.session.database _
              (λ id stored h e p.
                delete_order-other is_waiting row.client_id order_id id
                  market.session.database.orders
                  (pending_apart order_id id stored w.stored market.session.database w.found
                    w.is_wait h p)
                ∙ h)
              (m.sells action);
      };
      drawn_within = omega arith;
      grown = λ action. omega arith;
      still_waiting = λ id stored h k l.
          delete_order-other is_waiting row.client_id order_id id market.session.database.orders h
          ∙ l;
    },
    deleted order_id row w.stored market.session.database.orders w.found w.is_wait
        (sym (ap OrderRow.client_id w.is_row)),
  )
