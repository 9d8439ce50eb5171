-- ===== src/Sql/Watching.antt =====
-- Src_SQL/server.cpp: the watcher keeps the market.
use stock_market_trading_sim.Common.{
  ◌*◌, ◌+◌, ℕ, ◌≡◌, refl, sym, ◌∙◌, ap, Bool, ◌&&◌, some, arith, either, Bool-cases, inl, inr,
}
use stock_market_trading_sim.Common.Keys.{id_key}
use stock_market_trading_sim.Common.Maps.{lookup}
use stock_market_trading_sim.Double.{Double, IsOrdered}
use stock_market_trading_sim.Sql.{expired}
use stock_market_trading_sim.Sql.Database.{
  RowId, OrderType, is_waiting, OrderRow, expiry_logged, entry_logged, Environment,
  order_type_to_string, string_to_order_type,
}
use stock_market_trading_sim.Sql.Client.{
  zero_price, get_current_price, insert_order, add_pending_order,
}
use stock_market_trading_sim.Sql.Market.{Market, client_exists, insert_order_id, accumulate_order}
use stock_market_trading_sim.Sql.Loops.{process_continuous_trading}
use stock_market_trading_sim.Sql.Watcher.{remove_waiting, expire, enter, watch_order}
use stock_market_trading_sim.Sql.Supply.{Affords, emplace-other, apart}
use stock_market_trading_sim.Sql.Invariant.{queue, resting_orders, queue-longer, IsMarket}
use stock_market_trading_sim.Sql.Places.{length-insert_order_id}
use stock_market_trading_sim.Sql.Fixing.{resting_orders-le}
use stock_market_trading_sim.Sql.Continuous.{process_continuous_trading-Traded}
use stock_market_trading_sim.Sql.Entering.{IsEntry, accumulate_order-IsMarket}
use stock_market_trading_sim.Sql.Waiting.{
  Watched, unwatched, Watched-within, Watched-trans, logged-Watched, Waits, removed-Watched,
}

module _ {P : Type 0} ⦃double : Double P⦄ (environment : Environment P) where
  expire-Watched :
      (order_id : RowId) (row : OrderRow P) (market : Market P)
      → Waits environment market order_id row
      → IsMarket environment market
      → Affords environment 1 market.session
      → (later : Market P) × (expire environment order_id row market ≡ some later)
        × Watched environment 1 0 order_id market later
  unfolding expire
  expire-Watched order_id row market w m room =
      let (removed, gone) = removed-Watched environment order_id row market w m in
      let (later, e, _, logged) =
        logged-Watched environment order_id (expiry_logged row.client_id order_id)
          (remove_waiting environment order_id row market) removed.is_market
          (omega (arith, room, removed.drawn_within)) in
      (later, e, Watched-trans environment 0 0 1 0 order_id _ _ _ removed logged)

  type_kept : (type : OrderType) → string_to_order_type (order_type_to_string type) ≡ type
  unfolding string_to_order_type order_type_to_string
  type_kept OrderType.buy = refl
  type_kept OrderType.sell = refl

  -- The order that was removed may enter.
  removed-IsEntry :
      (order_id : RowId) (row : OrderRow P) (market : Market P)
      → ((price : P)
          → environment.through_text (environment.through_text price)
            ≡ environment.through_text price)
      → (w : Waits environment market order_id row) → IsMarket environment market
      → IsEntry environment
          (remove_waiting environment order_id row market)
          (string_to_order_type row.order_type)
          order_id
          row
  removed-IsEntry order_id row market text w m = record {
    is_new = (removed-Watched environment order_id row market w m).1;
    not_drawn = λ n h k e.
        apart (environment.generate_random_uint32 n) order_id w.stored
          market.session.database.orders (m.supplied.unused n h k) w.found (sym e);
    of_type =
        let same = ap OrderRow.order_type w.is_row in
        same
        ∙ sym (
            ap order_type_to_string (
              ap string_to_order_type same ∙ type_kept (string_to_order_type w.stored.order_type)));
    exact =
        let same = ap OrderRow.price w.is_row in
        ap environment.through_text same ∙ text w.stored.price ∙ sym same;
  }

  entered-Watched :
      (laws : IsOrdered P) (type : OrderType) (order_id : RowId) (row : OrderRow P)
      (market : Market P)
      → IsEntry environment market type order_id row
      → IsMarket environment market
      → Watched environment 0 1 order_id market (accumulate_order type order_id row market)
  unfolding accumulate_order add_pending_order insert_order
  entered-Watched laws OrderType.buy order_id row market entry m = record {
    is_market =
        accumulate_order-IsMarket environment laws OrderType.buy order_id row market entry m;
    drawn_within = elim (Bool-cases (client_exists row.client_id market.session.database)) [
      | inr e ↦ rw e (omega arith)
      | inl e ↦ rw e (omega arith)
    ];
    grown = λ action. elim (Bool-cases (client_exists row.client_id market.session.database)) [
      | inr e ↦ rw e (omega arith)
      | inl e ↦ rw e (
          let database = add_pending_order order_id row market.session.database in
          let ids = queue row.action_id market.buy_orders in
          let longer =
            queue-longer row.action_id action (insert_order_id OrderType.buy database order_id ids)
              market.buy_orders
              (omega (arith, length-insert_order_id OrderType.buy database order_id ids)) in
          omega (arith, longer))
    ];
    still_waiting = λ id old h k l.
        elim (Bool-cases (client_exists row.client_id market.session.database)) [
          | inr e ↦ rw e l
          | inl e ↦ rw e (emplace-other order_id id _ market.session.database.orders h ∙ l)
        ];
  }
  entered-Watched laws OrderType.sell order_id row market entry m = record {
    is_market =
        accumulate_order-IsMarket environment laws OrderType.sell order_id row market entry m;
    drawn_within = elim (Bool-cases (client_exists row.client_id market.session.database)) [
      | inr e ↦ rw e (omega arith)
      | inl e ↦ rw e (omega arith)
    ];
    grown = λ action. elim (Bool-cases (client_exists row.client_id market.session.database)) [
      | inr e ↦ rw e (omega arith)
      | inl e ↦ rw e (
          let database = add_pending_order order_id row market.session.database in
          let ids = queue row.action_id market.sell_orders in
          let longer =
            queue-longer row.action_id action (insert_order_id OrderType.sell database order_id ids)
              market.sell_orders
              (omega (arith, length-insert_order_id OrderType.sell database order_id ids)) in
          omega (arith, longer))
    ];
    still_waiting = λ id old h k l.
        elim (Bool-cases (client_exists row.client_id market.session.database)) [
          | inr e ↦ rw e l
          | inl e ↦ rw e (emplace-other order_id id _ market.session.database.orders h ∙ l)
        ];
  }

  traded-Watched :
      (order_id action : RowId) (market : Market P)
      → IsMarket environment market
      → Affords environment (5 * resting_orders action market) market.session
      → (later : Market P) × (process_continuous_trading environment action market ≡ some later)
        × Watched environment (5 * resting_orders action market) 0 order_id market later
  traded-Watched order_id action market m room =
      let (later, e, traded) = process_continuous_trading-Traded environment action market m room in
      (
        later,
        e,
        record {
          is_market = traded.is_market;
          drawn_within = omega (arith, traded.progress.drawn_within);
          grown = λ other.
              omega (arith, resting_orders-le environment action other market later traded);
          still_waiting = λ id row h k l.
              traded.progress.others_kept id row l
                (λ _ p. absurd (ground (arith, ap is_waiting (sym k ∙ p))));
        },
      )

  enter-Watched :
      (laws : IsOrdered P) (is_continuous : Bool) (order_id : RowId) (row : OrderRow P) (price : P)
      (market : Market P)
      → ((price : P)
          → environment.through_text (environment.through_text price)
            ≡ environment.through_text price)
      → Waits environment market order_id row
      → IsMarket environment market
      → Affords environment (6 + 5 * resting_orders row.action_id market) market.session
      → (later : Market P) × (enter environment is_continuous order_id row price market
          ≡ some later)
        × Watched environment (6 + 5 * resting_orders row.action_id market) 1 order_id market later
  unfolding enter
  enter-Watched laws is_continuous order_id row price market text w m room =
      let (logged, e, orders, first) =
        logged-Watched environment order_id (entry_logged row.client_id order_id price) market m
          (omega (arith, room)) in
      let w' : Waits environment logged order_id row = record {
        stored = w.stored;
        found = ap (λ table. lookup order_id table) orders ∙ w.found;
        is_wait = w.is_wait;
        is_row = w.is_row;
      } in
      let (removed, gone) = removed-Watched environment order_id row logged w' first.is_market in
      let entry = removed-IsEntry order_id row logged text w' first.is_market in
      let entered =
        entered-Watched laws (string_to_order_type row.order_type) order_id row _ entry
          removed.is_market in
      let before =
        Watched-trans environment 1 0 0 1 order_id _ _ _ first
          (Watched-trans environment 0 0 0 1 order_id _ _ _ removed entered) in
      elim (Bool-cases is_continuous) [
        | inr k ↦ (
          _,
          rw (e, k) refl,
          Watched-within environment 1 1 _ 1 order_id _ _ (omega arith) (omega arith) before,
        )
        | inl k ↦
            let (later, t, traded) =
              traded-Watched order_id row.action_id _ entered.is_market
                (omega (arith, room, before.drawn_within, before.grown row.action_id)) in
            (
              later,
              rw (e, k) t,
              Watched-within environment _ 1 _ 1 order_id _ _
                  (omega (arith, before.grown row.action_id)) (omega arith)
                  (Watched-trans environment 1 1 _ 0 order_id _ _ _ before traded),
            )
      ]

  -- One waiting order: it expires, enters its book or stays, and the market is kept.
  pub watch_order-Watched :
      (laws : IsOrdered P) (is_continuous : Bool) (now_date now_daily : ℕ) (order_id : RowId)
      (row : OrderRow P) (market : Market P)
      → ((price : P)
          → environment.through_text (environment.through_text price)
            ≡ environment.through_text price)
      → Waits environment market order_id row
      → IsMarket environment market
      → Affords environment (6 + 5 * resting_orders row.action_id market) market.session
      → (later : Market P) × (watch_order environment is_continuous now_date now_daily order_id row
            market
          ≡ some later)
        × Watched environment (6 + 5 * resting_orders row.action_id market) 1 order_id market later
  unfolding watch_order
  watch_order-Watched laws is_continuous now_date now_daily order_id row market text w m room =
      either
        (λ result.
          (later : Market P) × (result ≡ some later)
          × Watched environment (6 + 5 * resting_orders row.action_id market) 1 order_id market
              later)
        (expired row.expiration_time_date row.expiration_time_daily now_date now_daily)
        (let (later, e, expired) = expire-Watched order_id row market w m (omega (arith, room)) in
          (
            later,
            e,
            Watched-within environment 1 0 _ 1 order_id _ _ (omega arith) (omega arith) expired,
          ))
        (either
          (λ result.
            (later : Market P) × (result ≡ some later)
            × Watched environment (6 + 5 * resting_orders row.action_id market) 1 order_id market
                later)
          (double.le (get_current_price row.action_id market.session.database) zero_price)
          (
            market,
            refl,
            Watched-within environment 0 0 _ 1 order_id _ _ (omega arith) (omega arith)
                (unwatched environment order_id market m),
          )
          (either
            (λ result.
              (later : Market P) × (result ≡ some later)
              × Watched environment (6 + 5 * resting_orders row.action_id market) 1 order_id market
                  later)
            (double.le row.trigger_price_lower
                (get_current_price row.action_id market.session.database)
              && double.le (get_current_price row.action_id market.session.database)
                  row.trigger_price_upper)
            (enter-Watched laws is_continuous order_id row _ market text w m room)
            (
              market,
              refl,
              Watched-within environment 0 0 _ 1 order_id _ _ (omega arith) (omega arith)
                  (unwatched environment order_id market m),
            )))
