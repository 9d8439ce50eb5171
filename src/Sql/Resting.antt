-- ===== src/Sql/Resting.antt =====
-- Src_SQL/market.cpp: the orders that rest in a book, and what a transaction leaves of one side.
use mathlib.Core.Option.{some-injective}
use stock_market_trading_sim.Common.{
  ℕ, ◌≡◌, refl, sym, ◌∙◌, ap, Option, none, some, List, [], ◌∷◌, map, drop, All, arith,
}
use stock_market_trading_sim.Common.Int.{ℤ, pos, ◌-ℤ◌}
use stock_market_trading_sim.Common.Keys.{◌==◌, symbol_key, id_key}
use stock_market_trading_sim.Common.Maps.{lookup}
use stock_market_trading_sim.Double.{Double}
use stock_market_trading_sim.Sql.Database.{
  RowId, OrderType, OrderStatus, OrderRow, Database, Environment, order_type_to_string,
  execute_sql_query_double, execute_sql_query_id,
}
use stock_market_trading_sim.Sql.Market.{
  Session, Rank, rank, get_price, get_date_order_time, get_daily_order_time,
}
use stock_market_trading_sim.Sql.Trading.{info_of, replaced, order_row}
use stock_market_trading_sim.Sql.Supply.{IsSupply, apart}
use stock_market_trading_sim.Sql.Effects.{KeepsBut, IsLeft}

module _ {P : Type 0} ⦃double : Double P⦄ (environment : Environment P) where
  -- An entry of a book: its order is in the table, pending, of the book's side and action, and its
  -- price is not changed by being written as text.
  pub record Resting (type : OrderType) (action : RowId) (database : Database P) (id : RowId)
      : Type 0 where
    pub row : OrderRow P
    pub found : lookup id database.orders ≡ some row
    pub still_pending : row.order_status ≡ OrderStatus.pending
    pub of_type : row.order_type ≡ order_type_to_string type
    pub of_action : row.action_id ≡ action
    pub exact : environment.through_text row.price ≡ row.price

  -- A queue of a book, in which no order is twice.
  abbrev pub Rests : OrderType → RowId → Database P → List RowId → Type 0
  Rests type action database [] = Unit
  Rests type action database (id ∷ ids) =
      Resting type action database id
      × All (λ other. id ≡ other → ⊥) ids
      × Rests type action database ids

  pub Resting-kept :
      (type : OrderType) (action bought sold id : RowId) (session changed : Session P)
      → KeepsBut environment bought sold session changed
      → (bought ≡ id → ⊥)
      → (sold ≡ id → ⊥)
      → Resting type action session.database id
      → Resting type action changed.database id
  Resting-kept type action bought sold id session changed kept b s r = record {
    row = r.row;
    found = kept id r.row b s r.found;
    still_pending = r.still_pending;
    of_type = r.of_type;
    of_action = r.of_action;
    exact = r.exact;
  }

  -- What the comparators read of a row.
  abbrev pub rank_of : OrderRow P → Rank P
  rank_of row = (
    row.price,
    execute_sql_query_id (some (pos row.order_time_date)),
    execute_sql_query_id (some (pos row.order_time_daily)),
  )

  pub get_price-found :
      (id : RowId) (row : OrderRow P) (database : Database P)
      → lookup id database.orders ≡ some row
      → get_price id database ≡ row.price
  unfolding get_price execute_sql_query_double
  get_price-found id row database h = rw (h, get_price) refl

  date-found :
      (id : RowId) (row : OrderRow P) (database : Database P)
      → lookup id database.orders ≡ some row
      → get_date_order_time id database ≡ execute_sql_query_id (some (pos row.order_time_date))
  unfolding get_date_order_time
  date-found id row database h = rw (h, get_date_order_time) refl

  daily-found :
      (id : RowId) (row : OrderRow P) (database : Database P)
      → lookup id database.orders ≡ some row
      → get_daily_order_time id database ≡ execute_sql_query_id (some (pos row.order_time_daily))
  unfolding get_daily_order_time
  daily-found id row database h = rw (h, get_daily_order_time) refl

  pub rank-found :
      (id : RowId) (row : OrderRow P) (database : Database P)
      → lookup id database.orders ≡ some row
      → rank database id ≡ rank_of row
  rank-found id row database h =
      rw
        (
          get_price-found id row database h,
          date-found id row database h,
          daily-found id row database h,
        )
        refl

  pub same_row :
      (id : RowId) (one other : OrderRow P) (database : Database P)
      → lookup id database.orders ≡ some one
      → lookup id database.orders ≡ some other
      → one ≡ other
  same_row id one other database h k = some-injective one other (sym h ∙ k)

  -- A buy order is no sell order.
  pub sides-apart :
      (action action' bought sold : RowId) (database : Database P)
      → Resting OrderType.buy action database bought
      → Resting OrderType.sell action' database sold
      → bought ≡ sold
      → ⊥
  unfolding order_type_to_string
  sides-apart action action' bought sold database b s e =
      let same : order_type_to_string OrderType.buy ≡ order_type_to_string OrderType.sell =
        sym b.of_type
        ∙ ap OrderRow.order_type (
            same_row bought b.row s.row database b.found
              (ap (λ id. lookup id database.orders) e ∙ s.found))
        ∙ s.of_type in
      absurd (ground (arith, ap (λ text. text == "BUY") same))

  -- What stays of a queue without the two orders of a transaction, with the same ranks.
  pub Rests-kept :
      (type : OrderType) (action bought sold : RowId) (ids : List RowId)
      (session changed : Session P)
      → KeepsBut environment bought sold session changed
      → All (λ id. bought ≡ id → ⊥) ids
      → All (λ id. sold ≡ id → ⊥) ids
      → Rests type action session.database ids
      → Rests type action changed.database ids
        × (map (rank changed.database) ids ≡ map (rank session.database) ids)
  Rests-kept type action bought sold [] session changed kept b s r = (tt, refl)
  Rests-kept type action bought sold (id ∷ ids) session changed kept (b, bs) (s, ss)
        (r, apart, rs) =
      let (left, same) = Rests-kept type action bought sold ids session changed kept bs ss rs in
      let own = rank-found id r.row session.database r.found in
      let own' = rank-found id r.row changed.database (kept id r.row b s r.found) in
      (
        (Resting-kept type action bought sold id session changed kept b s r, apart, left),
        rw (own, own', same) refl,
      )

  -- An id without a row is of no order that rests.
  pub unused-apart :
      (type : OrderType) (action id : RowId) (ids : List RowId) (database : Database P)
      → lookup id database.orders ≡ none
      → Rests type action database ids
      → All (λ other. id ≡ other → ⊥) ids
  unused-apart type action id [] database h r = tt
  unused-apart type action id (other ∷ ids) database h (r, _, rs) = (
    apart id other r.row database.orders h r.found,
    unused-apart type action id ids database h rs,
  )

  -- One side after a transaction of its first order: the leftover, if any, takes its place.
  pub replaced-Rests :
      (type : OrderType) (action own : RowId) (quantity : ℤ) (ids : List RowId)
      (session changed : Session P) (left : Option RowId)
      → IsSupply environment session
      → (r : Resting type action session.database own)
      → IsLeft environment type action (info_of environment own r.row) quantity session changed left
      → Rests type action session.database ids
      → Rests type action changed.database ids
      → map (rank changed.database) ids ≡ map (rank session.database) ids
      → Rests type action changed.database (replaced left ids)
        × (n : ℕ) × (map (rank changed.database) (replaced left ids)
            ≡ drop n (map (rank session.database) (own ∷ ids)))
  replaced-Rests type action own quantity ids session changed none supply r is_left rs rs' same =
      (rs', 1, same)
  replaced-Rests type action own quantity ids session changed (some id) supply r
        ((n, h, k, e), more, found) rs rs' same =
      let row =
        order_row environment type action (info_of environment own r.row) r.row.order_time_date
          r.row.order_time_daily (r.row.quantity -ℤ quantity)
          (environment.through_text r.row.price) in
      let before = rank-found own r.row session.database r.found in
      let after = rank-found id row changed.database found in
      (
        (
          record {
            row = row;
            found = found;
            still_pending = refl;
            of_type = refl;
            of_action = refl;
            exact = ap environment.through_text r.exact;
          },
          unused-apart type action id ids session.database
              (ap (λ other. lookup other session.database.orders) e ∙ supply.unused n h k) rs,
          rs',
        ),
        0,
        rw (before, after, same, r.exact) refl,
      )
