-- ===== src/Sql/Effects.antt =====
-- Src_SQL/market.cpp: what a transaction does to the table of orders.

use stock_market_trading_sim.Common.{
  ◌<◌, ◌+◌, ℕ, ◌≤◌, ◌≡◌, refl, ◌∙◌, inl, inr, true, false, Option, none, some, arith, Bool-cases,
}
use stock_market_trading_sim.Common.Int.{ℤ, pos, ◌-ℤ◌, ltb_ℤ}
use stock_market_trading_sim.Common.Keys.{id_key}
use stock_market_trading_sim.Common.Maps.{lookup}
use stock_market_trading_sim.Double.{Double}
use stock_market_trading_sim.Sql.{get_daily_time, get_date_time}
use stock_market_trading_sim.Sql.Database.{
  RowId, OrderType, OrderStatus, is_pending, OrderRow, Environment, select_id,
}
use stock_market_trading_sim.Sql.Client.{
  with_status, insert_order, add_pending_order, remove_pending_order,
}
use stock_market_trading_sim.Sql.Market.{Session}
use stock_market_trading_sim.Sql.Trading.{
  OrderInfo, min_ℤ, transacted, order_row, with_database, exchange, leftover, close_orders,
  transact,
}
use stock_market_trading_sim.Sql.Supply.{
  IsSupply, Affords, Keeps, next_id, with_order, get_new_order_id_lem, with_order-IsSupply,
  with_order-Keeps, with_order-found, delete_order-other, delete_order-none,
}
use stock_market_trading_sim.Sql.Transactions.{
  Adds, exchange-Adds, log_transaction-Adds, add_completed_lem,
}

module _ {P : Type 0} ⦃double : Double P⦄ (environment : Environment P) where
  -- The session without the two orders that were traded.
  abbrev pub removed : OrderInfo P → OrderInfo P → Session P → Session P
  removed buyer seller session =
      with_database environment
        (remove_pending_order seller.info_client seller.info_id
          (remove_pending_order buyer.info_client buyer.info_id session.database))
        session

  -- The orders other than the two are there.
  abbrev pub KeepsBut : RowId → RowId → Session P → Session P → Type 0
  KeepsBut bought sold session changed =
      (id : RowId) (row : OrderRow P)
      → (bought ≡ id → ⊥)
      → (sold ≡ id → ⊥)
      → lookup id session.database.orders ≡ some row
      → lookup id changed.database.orders ≡ some row

  removed-IsSupply :
      (buyer seller : OrderInfo P) (session : Session P)
      → IsSupply environment session
      → IsSupply environment (removed buyer seller session)
  unfolding remove_pending_order
  removed-IsSupply buyer seller session supply = record {
    injective = supply.injective;
    unused = λ n h k.
        delete_order-none is_pending seller.info_client seller.info_id
          (environment.generate_random_uint32 n) _
          (delete_order-none is_pending buyer.info_client buyer.info_id
            (environment.generate_random_uint32 n) session.database.orders (supply.unused n h k));
    unsaid = supply.unsaid;
  }

  removed-clients :
      (buyer seller : OrderInfo P) (session : Session P) (client : RowId)
      → select_id client (removed buyer seller session).database.clients
        ≡ select_id client session.database.clients
  unfolding remove_pending_order
  removed-clients buyer seller session client = refl

  removed-keeps :
      (buyer seller : OrderInfo P) (session : Session P)
      → KeepsBut buyer.info_id seller.info_id session (removed buyer seller session)
  unfolding remove_pending_order
  removed-keeps buyer seller session id row bought sold h =
      delete_order-other is_pending seller.info_client seller.info_id id _ sold
      ∙ delete_order-other is_pending buyer.info_client buyer.info_id id session.database.orders
          bought
      ∙ h

  -- An order under a new id only adds.
  with_order-Adds :
      (row : OrderRow P) (session : Session P)
      → IsSupply environment session
      → Affords environment 1 session
      → Adds environment 1 session (with_order environment row session)
  unfolding insert_order
  with_order-Adds row session supply room = record {
    supplied = with_order-IsSupply environment row session supply;
    keeps = with_order-Keeps environment row session supply room;
    drawn_le = omega arith;
    drawn_within = omega arith;
    same_clients = λ client. refl;
  }

  Adds-trans :
      (n m : ℕ) (first second third : Session P)
      → Adds environment n first second
      → Adds environment m second third
      → Adds environment (n + m) first third
  Adds-trans n m first second third a b = record {
    supplied = b.supplied;
    keeps = λ id row h. b.keeps id row (a.keeps id row h);
    drawn_le = omega (arith, a.drawn_le, b.drawn_le);
    drawn_within = omega (arith, a.drawn_within, b.drawn_within);
    same_clients = λ client. b.same_clients client ∙ a.same_clients client;
  }

  close_orders-closes :
      (action : RowId) (buyer seller : OrderInfo P) (now : ℕ) (quantity : ℤ) (session : Session P)
      → ltb_ℤ (pos 0) quantity ≡ true
      → IsSupply environment session
      → Affords environment 2 session
      → (closed : Session P) × (close_orders environment action buyer seller now quantity session
          ≡ some closed)
        × Adds environment 2 (removed buyer seller session) closed
  unfolding close_orders
  close_orders-closes action buyer seller now quantity session positive supply room =
      let start = removed buyer seller session in
      let supplied = removed-IsSupply buyer seller session supply in
      let once =
        with_order-Adds
          (with_status OrderStatus.completed (
            order_row environment OrderType.buy action buyer
              (get_date_time environment.localtime now) (get_daily_time environment.localtime now)
              quantity session.exchange_price))
          start supplied (omega (arith, room)) in
      rw positive (
        rw
          (add_completed_lem environment OrderType.buy action buyer now quantity start supplied
            (omega (arith, room)))
          (
            _,
            add_completed_lem environment OrderType.sell action seller now quantity _ once.supplied
                (omega (arith, room)),
            Adds-trans 1 1 _ _ _ once (with_order-Adds _ _ once.supplied (omega (arith, room))),
          ))

  -- What a side is left with: nothing, or a new order of its remaining quantity.
  abbrev pub IsLeft :
      OrderType → RowId → OrderInfo P → ℤ → Session P → Session P → Option RowId → Type 0
  IsLeft type action info quantity session changed none = ltb_ℤ quantity info.info_quantity ≡ false
  IsLeft type action info quantity session changed (some id) =
      ((n : ℕ) × (session.drawn ≤ n)
        × (n < environment.random_numbers)
        × (id ≡ environment.generate_random_uint32 n))
      × (ltb_ℤ quantity info.info_quantity ≡ true)
      × (lookup id changed.database.orders
          ≡ some (
              order_row environment type action info info.info_date info.info_daily
                (info.info_quantity -ℤ quantity) info.info_price))

  leftover-leaves :
      (type : OrderType) (action : RowId) (info : OrderInfo P) (quantity : ℤ) (session : Session P)
      → IsSupply environment session
      → Affords environment 1 session
      → (left : Option RowId) × (changed : Session P) × (leftover environment type action info
            quantity session
          ≡ some (left, changed))
        × Adds environment 1 session changed
        × IsLeft type action info quantity session changed left
  unfolding leftover add_pending_order
  leftover-leaves type action info quantity session supply room =
      elim (Bool-cases (ltb_ℤ quantity info.info_quantity)) [
        | inl more ↦ rw more (
            rw (get_new_order_id_lem environment session supply room) (
              some (next_id environment session),
              _,
              refl,
              with_order-Adds _ session supply room,
              (
                (session.drawn, omega arith, omega (arith, room), refl),
                more,
                with_order-found environment _ session supply room,
              ),
            ))
        | inr equal ↦ rw equal (
          none,
          session,
          refl,
          record {
            supplied = supply;
            keeps = λ id row h. h;
            drawn_le = omega arith;
            drawn_within = omega arith;
            same_clients = λ client. refl;
          },
          equal,
        )
      ]

  -- A transaction keeps the other orders, and leaves of each side nothing or a new order.
  pub record Transacted (action : RowId) (buyer seller : OrderInfo P) (session changed : Session P)
      (buyer_left seller_left : Option RowId) : Type 0 where
    pub supplied : IsSupply environment changed
    pub drawn_within : changed.drawn ≤ session.drawn + 5
    pub kept : KeepsBut buyer.info_id seller.info_id session changed
    pub same_clients :
        (client : RowId)
        → select_id client changed.database.clients ≡ select_id client session.database.clients
    pub buyer_is_left :
        IsLeft OrderType.buy action buyer
          (min_ℤ buyer.info_quantity seller.info_quantity)
          session
          changed
          buyer_left
    pub seller_is_left :
        IsLeft OrderType.sell action seller
          (min_ℤ buyer.info_quantity seller.info_quantity)
          session
          changed
          seller_left

  IsLeft-later :
      (type : OrderType) (action : RowId) (info : OrderInfo P) (quantity : ℤ)
      (session middle changed last : Session P) (left : Option RowId)
      → session.drawn ≤ middle.drawn
      → Keeps changed last
      → IsLeft type action info quantity middle changed left
      → IsLeft type action info quantity session last left
  IsLeft-later type action info quantity session middle changed last none h keeps is_left = is_left
  IsLeft-later type action info quantity session middle changed last (some id) h keeps
        ((n, k, l, e), more, found) =
      ((n, omega (arith, h, k), l, e), more, keeps id _ found)

  pub transact-Transacted :
      (action : RowId) (buyer seller : OrderInfo P) (session : Session P)
      → ltb_ℤ (pos 0) (min_ℤ buyer.info_quantity seller.info_quantity) ≡ true
      → IsSupply environment session
      → Affords environment 5 session
      → (changed : Session P) × (buyer_left seller_left : Option RowId) × (transact environment
            action buyer seller session
          ≡ some (transacted changed buyer_left seller_left))
        × Transacted action buyer seller session changed buyer_left seller_left
  unfolding transact
  transact-Transacted action buyer seller session positive supply room =
      let quantity = min_ℤ buyer.info_quantity seller.info_quantity in
      let now = environment.get_current_time_ms session.made in
      let exchanged = exchange environment action buyer seller now quantity session in
      let first = exchange-Adds environment action buyer seller now quantity session supply in
      let (logged, e, second) =
        log_transaction-Adds environment action buyer seller now quantity exchanged first.supplied
          (omega (arith, room, first.drawn_within)) in
      let (closed, k, third) =
        close_orders-closes action buyer seller now quantity logged positive second.supplied
          (omega (arith, room, first.drawn_within, second.drawn_within)) in
      let (buyer_left, again, l, fourth, is_left) =
        leftover-leaves OrderType.buy action buyer quantity closed third.supplied
          (omega (arith, room, first.drawn_within, second.drawn_within, third.drawn_within)) in
      let (seller_left, last, m, fifth, is_left') =
        leftover-leaves OrderType.sell action seller quantity again fourth.supplied (
          omega (
            arith, room, first.drawn_within, second.drawn_within, third.drawn_within,
            fourth.drawn_within,
          )) in
      (
        last,
        buyer_left,
        seller_left,
        rw (e, k, l, m) refl,
        record {
          supplied = fifth.supplied;
          drawn_within = omega (
            arith, first.drawn_within, second.drawn_within, third.drawn_within, fourth.drawn_within,
            fifth.drawn_within,
          );
          kept = λ id row bought sold h. fifth.keeps id row (
              fourth.keeps id row (
                third.keeps id row (
                  removed-keeps buyer seller logged id row bought sold
                    (second.keeps id row (first.keeps id row h)))));
          same_clients = λ client.
              fifth.same_clients client
              ∙ fourth.same_clients client
              ∙ third.same_clients client
              ∙ removed-clients buyer seller logged client
              ∙ second.same_clients client
              ∙ first.same_clients client;
          buyer_is_left =
              IsLeft-later OrderType.buy action buyer quantity session closed again last buyer_left
                (omega (arith, first.drawn_le, second.drawn_le, third.drawn_le)) fifth.keeps
                is_left;
          seller_is_left =
              IsLeft-later OrderType.sell action seller quantity session again last last seller_left
                (omega (arith, first.drawn_le, second.drawn_le, third.drawn_le, fourth.drawn_le))
                (λ id row h. h) is_left';
        },
      )
