-- ===== src/Sql/Entering.antt =====
-- Src_SQL/market.cpp: accumulate_order puts an order at its place in the queue.
use stock_market_trading_sim.Common.{
  ◌<◌, ℕ, ◌≤◌, ◌≡◌, refl, ◌∙◌, inl, inr, Bool, true, false, none, List, All, Bool-cases,
}
use stock_market_trading_sim.Common.Keys.{id_key}
use stock_market_trading_sim.Common.Maps.{lookup}
use stock_market_trading_sim.Double.{Double, IsOrdered}
use stock_market_trading_sim.Sql.Database.{
  RowId, OrderType, OrderStatus, OrderRow, Environment, order_type_to_string,
}
use stock_market_trading_sim.Sql.Client.{with_status, insert_order, add_pending_order}
use stock_market_trading_sim.Sql.Market.{
  Session, Market, client_exists, insert_order_id, accumulate_order,
}
use stock_market_trading_sim.Sql.Places.{Placed, insert_order_id-Rests, insert_order_id-Placed}
use stock_market_trading_sim.Sql.Supply.{IsSupply, emplace-other, emplace-new}
use stock_market_trading_sim.Sql.Effects.{KeepsBut}
use stock_market_trading_sim.Sql.Resting.{Resting, Rests-kept, unused-apart}
use stock_market_trading_sim.Sql.Priority.{insert_order_id-InPriority}
use stock_market_trading_sim.Sql.Invariant.{queue, queue-own, IsQueue, IsMarket, queues-with}

module _ {P : Type 0} ⦃double : Double P⦄ (environment : Environment P) where
  -- An order that may enter: under a new id, of a price that its text keeps.
  pub record IsEntry (market : Market P) (type : OrderType) (order_id : RowId) (row : OrderRow P)
      : Type 0 where
    pub is_new : lookup order_id market.session.database.orders ≡ none
    pub not_drawn :
        (n : ℕ)
        → market.session.drawn ≤ n
        → n < environment.random_numbers
        → order_id ≡ environment.generate_random_uint32 n
        → ⊥
    pub of_type : row.order_type ≡ order_type_to_string type
    pub exact : environment.through_text row.price ≡ row.price

  abbrev with_entry : RowId → OrderRow P → Session P → Session P
  with_entry order_id row session = record session {
    database = add_pending_order order_id row session.database;
  }

  with_entry-supplied :
      (market : Market P) (type : OrderType) (order_id : RowId) (row : OrderRow P)
      → IsEntry market type order_id row
      → IsSupply environment market.session
      → IsSupply environment (with_entry order_id row market.session)
  unfolding add_pending_order insert_order
  with_entry-supplied market type order_id row entry supply = record {
    injective = supply.injective;
    unused = λ n h k.
        emplace-other order_id (environment.generate_random_uint32 n) _
          market.session.database.orders (entry.not_drawn n h k)
        ∙ supply.unused n h k;
    unsaid = supply.unsaid;
  }

  with_entry-keeps :
      (market : Market P) (order_id : RowId) (row : OrderRow P)
      → KeepsBut environment order_id order_id market.session
          (with_entry order_id row market.session)
  unfolding add_pending_order insert_order
  with_entry-keeps market order_id row id old h k found =
      emplace-other order_id id _ market.session.database.orders h ∙ found

  with_entry-Resting :
      (market : Market P) (type : OrderType) (order_id : RowId) (row : OrderRow P)
      → IsEntry market type order_id row
      → Resting environment type row.action_id
          (with_entry order_id row market.session).database
          order_id
  unfolding add_pending_order insert_order
  with_entry-Resting market type order_id row entry = record {
    row = with_status OrderStatus.pending row;
    found = emplace-new order_id _ market.session.database.orders entry.is_new;
    still_pending = refl;
    of_type = entry.of_type;
    of_action = refl;
    exact = entry.exact;
  }

  -- The queues in the table with the new order.
  with_entry-IsQueue :
      (market : Market P) (type of : OrderType) (action order_id : RowId) (row : OrderRow P)
      (ids : List RowId)
      → IsEntry market type order_id row
      → IsQueue environment of action market.session.database ids
      → IsQueue environment of action (with_entry order_id row market.session).database ids
        × All (λ other. order_id ≡ other → ⊥) ids
  with_entry-IsQueue market type of action order_id row ids entry (rs, p) =
      let hs =
        unused-apart environment of action order_id ids market.session.database entry.is_new rs in
      let (left, same) =
        Rests-kept environment of action order_id order_id ids market.session
          (with_entry order_id row market.session) (with_entry-keeps market order_id row) hs hs
          rs in
      ((left, rw same p), hs)

  -- The queue of the order's action, with the order.
  entered-IsQueue :
      (laws : IsOrdered P) (market : Market P) (type : OrderType) (order_id : RowId)
      (row : OrderRow P) (ids : List RowId)
      → IsEntry market type order_id row
      → IsQueue environment type row.action_id market.session.database ids
      → IsQueue environment type row.action_id
          (with_entry order_id row market.session).database
          (insert_order_id type (with_entry order_id row market.session).database order_id ids)
  entered-IsQueue laws market type order_id row ids entry q =
      let ((rs, p), hs) =
        with_entry-IsQueue market type type row.action_id order_id row ids entry q in
      let database = (with_entry order_id row market.session).database in
      (
        insert_order_id-Rests environment type row.action_id database order_id ids
            (with_entry-Resting market type order_id row entry) hs rs,
        insert_order_id-InPriority laws type database order_id ids p,
      )

  -- accumulate_order keeps the invariant of the market.
  pub accumulate_order-IsMarket :
      (laws : IsOrdered P) (type : OrderType) (order_id : RowId) (row : OrderRow P)
      (market : Market P)
      → IsEntry market type order_id row
      → IsMarket environment market
      → IsMarket environment (accumulate_order type order_id row market)
  unfolding accumulate_order
  accumulate_order-IsMarket laws OrderType.buy order_id row market entry m =
      elim (Bool-cases (client_exists row.client_id market.session.database)) [
        | inr k ↦ rw k m
        | inl k ↦ rw k record {
          supplied = with_entry-supplied market OrderType.buy order_id row entry m.supplied;
          buys =
              queues-with environment OrderType.buy row.action_id market.buy_orders _ _
                (entered-IsQueue laws market OrderType.buy order_id row _ entry
                  (m.buys row.action_id))
                (λ other h.
                  (with_entry-IsQueue market OrderType.buy OrderType.buy other order_id row _ entry
                    (m.buys other)).0);
          sells = λ other.
              (with_entry-IsQueue market OrderType.buy OrderType.sell other order_id row _ entry
                (m.sells other)).0;
        }
      ]
  accumulate_order-IsMarket laws OrderType.sell order_id row market entry m =
      elim (Bool-cases (client_exists row.client_id market.session.database)) [
        | inr k ↦ rw k m
        | inl k ↦ rw k record {
          supplied = with_entry-supplied market OrderType.sell order_id row entry m.supplied;
          buys = λ other.
              (with_entry-IsQueue market OrderType.sell OrderType.buy other order_id row _ entry
                (m.buys other)).0;
          sells =
              queues-with environment OrderType.sell row.action_id market.sell_orders _ _
                (entered-IsQueue laws market OrderType.sell order_id row _ entry
                  (m.sells row.action_id))
                (λ other h.
                  (with_entry-IsQueue market OrderType.sell OrderType.sell other order_id row _
                    entry (m.sells other)).0);
        }
      ]

  abbrev pub queue_of : OrderType → RowId → Market P → List RowId
  queue_of OrderType.buy action market = queue action market.buy_orders
  queue_of OrderType.sell action market = queue action market.sell_orders

  -- What accumulate_order does where the client exists and where not.
  abbrev pub Entered : OrderType → RowId → OrderRow P → Market P → Market P → Bool → Type 0
  Entered type order_id row market later true =
      Placed type later.session.database order_id (queue_of type row.action_id market)
        (queue_of type row.action_id later)
  Entered type order_id row market later false = later ≡ market

  -- In a market whose queues hold resting orders, once each and in order of priority, where the
  -- random numbers of the run are different and those to come are in no table, accumulate_order of
  -- an order of that type, under an id that is in no row and none of those numbers to come, at a price that its text keeps, makes such a market. If the client exists, the
  -- order stands in its queue behind orders that all go before it, with the others as they were;
  -- else the market is unchanged.
  pub accumulate_order-Entered :
      (laws : IsOrdered P) (type : OrderType) (order_id : RowId) (row : OrderRow P)
      (market : Market P)
      → IsEntry market type order_id row
      → IsMarket environment market
      → IsMarket environment (accumulate_order type order_id row market)
        × Entered type order_id row market
            (accumulate_order type order_id row market)
            (client_exists row.client_id market.session.database)
  unfolding accumulate_order
  accumulate_order-Entered laws OrderType.buy order_id row market entry m = (
    accumulate_order-IsMarket laws OrderType.buy order_id row market entry m,
    elim (Bool-cases (client_exists row.client_id market.session.database)) [
      | inr k ↦ rw k refl
      | inl k ↦ rw k (
          rw (queue-own row.action_id _ market.buy_orders) (
            insert_order_id-Placed OrderType.buy _ order_id
              (queue row.action_id market.buy_orders)))
    ],
  )
  accumulate_order-Entered laws OrderType.sell order_id row market entry m = (
    accumulate_order-IsMarket laws OrderType.sell order_id row market entry m,
    elim (Bool-cases (client_exists row.client_id market.session.database)) [
      | inr k ↦ rw k refl
      | inl k ↦ rw k (
          rw (queue-own row.action_id _ market.sell_orders) (
            insert_order_id-Placed OrderType.sell _ order_id
              (queue row.action_id market.sell_orders)))
    ],
  )
