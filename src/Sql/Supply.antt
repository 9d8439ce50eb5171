-- ===== src/Sql/Supply.antt =====
-- Src_SQL: new ids, and what adding and removing an order does to the other rows.
use stock_market_trading_sim.Common.{
  ℕ, zero, suc, ◌+◌, ◌<◌, ◌≤◌, ◌≡◌, refl, ◌∙◌, ap, inl, inr, Bool, true, false, ◌&&◌, none, some,
  arith, eqb, eqb_iff, either, Option-cases,
}
use stock_market_trading_sim.Common.Int.{pos, negsuc, same_ℤ}
use stock_market_trading_sim.Common.Keys.{id_key}
use stock_market_trading_sim.Common.Maps.{Map, lookup, emplace, lookup-erase, lookup-emplace}
use stock_market_trading_sim.Sql.Database.{
  RowId, OrderStatus, OrderRow, Environment, select_id, column_int, execute_sql_query_id,
}
use stock_market_trading_sim.Sql.Client.{insert_order, delete_order}
use stock_market_trading_sim.Sql.Market.{Session, redraw, get_new_order_id, get_new_message_id}

-- An id of 32 bits that is taken is read as another number than -1, but for the largest.
column_int-taken :
    (id : RowId) → id + 1 < 4294967296 → same_ℤ (column_int (pos id)) (negsuc 0) ≡ false
unfolding column_int
column_int-taken id h = ground (arith, h)

-- A new id changes no other entry, and is found.
pub emplace-other :
    {V : Type 0} (id other : RowId) (value : V) (table : Map RowId V)
    → (id ≡ other → ⊥)
    → lookup other (emplace id value table) ≡ lookup other table
emplace-other id other value table h =
    ground (arith, lookup-emplace id other value table, eqb_iff id other, h)

pub emplace-new :
    {V : Type 0} (id : RowId) (value : V) (table : Map RowId V)
    → lookup id table ≡ none
    → lookup id (emplace id value table) ≡ some value
emplace-new id value table h = ground (arith, lookup-emplace id id value table, eqb_iff id id, h)

-- An id that has a row is not an id that has none.
pub apart :
    {V : Type 0} (id other : RowId) (value : V) (table : Map RowId V)
    → lookup id table ≡ none
    → lookup other table ≡ some value
    → id ≡ other
    → ⊥
apart id other value table h k e = absurd (ground (arith, h, k, ap (λ i. lookup i table) e))

module _ {P : Type 0} where
  -- The numbers that a run may draw are all different, and those to come are in no table.
  pub record IsSupply (environment : Environment P) (session : Session P) : Type 0 where
    pub injective :
        (i j : ℕ)
        → i < environment.random_numbers
        → j < environment.random_numbers
        → environment.generate_random_uint32 i ≡ environment.generate_random_uint32 j
        → i ≡ j
    pub unused :
        (n : ℕ)
        → session.drawn ≤ n
        → n < environment.random_numbers
        → lookup (environment.generate_random_uint32 n) session.database.orders ≡ none
    pub unsaid :
        (n : ℕ)
        → session.drawn ≤ n
        → n < environment.random_numbers
        → lookup (environment.generate_random_uint32 n) session.database.messages ≡ none

  -- A run from the session on may draw as many numbers.
  abbrev pub Affords : Environment P → ℕ → Session P → Type 0
  Affords environment count session = session.drawn + count ≤ environment.random_numbers

  -- The orders of the first session are there in the second.
  abbrev pub Keeps : Session P → Session P → Type 0
  Keeps session changed =
      (id : RowId) (row : OrderRow P)
      → lookup id session.database.orders ≡ some row
      → lookup id changed.database.orders ≡ some row

  abbrev pub next_id : Environment P → Session P → RowId
  next_id environment session = environment.generate_random_uint32 session.drawn

  -- An order under a new id.
  abbrev pub with_order : Environment P → OrderRow P → Session P → Session P
  with_order environment row session = record session {
    drawn = suc session.drawn;
    database = insert_order (next_id environment session) row session.database;
  }

  pub get_new_order_id_lem :
      (environment : Environment P) (session : Session P)
      → IsSupply environment session
      → Affords environment 1 session
      → get_new_order_id environment session
        ≡ some (next_id environment session, record session { drawn = suc session.drawn })
  unfolding get_new_order_id redraw select_id execute_sql_query_id
  get_new_order_id_lem environment session supply room =
      rw (supply.unused session.drawn (omega arith) (omega (arith, room))) refl

  pub get_new_message_id_lem :
      (environment : Environment P) (session : Session P)
      → IsSupply environment session
      → Affords environment 1 session
      → get_new_message_id environment session
        ≡ some (next_id environment session, record session { drawn = suc session.drawn })
  unfolding get_new_message_id redraw select_id execute_sql_query_id
  get_new_message_id_lem environment session supply room =
      rw (supply.unsaid session.drawn (omega arith) (omega (arith, room))) refl

  redraw-taken :
      (environment : Environment P) (rounds : ℕ) (id : RowId) (session : Session P)
      → redraw environment rounds true id session ≡ none
  unfolding redraw
  redraw-taken environment zero id session = refl
  redraw-taken environment (suc rounds) id session = redraw-taken environment rounds _ _

  -- Where the first id that is drawn is taken, the loop never ends, whatever is drawn after it.
  pub get_new_order_id-taken :
      (environment : Environment P) (session : Session P) (row : OrderRow P)
      → next_id environment session + 1 < 4294967296
      → lookup (next_id environment session) session.database.orders ≡ some row
      → get_new_order_id environment session ≡ none
  unfolding get_new_order_id select_id execute_sql_query_id
  get_new_order_id-taken environment session row h k =
      rw (k, column_int-taken (next_id environment session) h)
        (redraw-taken environment environment.redraws _ _)

  pub with_order-IsSupply :
      (environment : Environment P) (row : OrderRow P) (session : Session P)
      → IsSupply environment session
      → IsSupply environment (with_order environment row session)
  unfolding insert_order
  with_order-IsSupply environment row session supply = record {
    injective = supply.injective;
    unused = λ n h k.
        emplace-other (next_id environment session) (environment.generate_random_uint32 n) row
          session.database.orders
          (λ e. omega (arith, h, supply.injective session.drawn n (omega (arith, h, k)) k e))
        ∙ supply.unused n (omega (arith, h)) k;
    unsaid = λ n h k. supply.unsaid n (omega (arith, h)) k;
  }

  pub with_order-Keeps :
      (environment : Environment P) (row : OrderRow P) (session : Session P)
      → IsSupply environment session
      → Affords environment 1 session
      → Keeps session (with_order environment row session)
  unfolding insert_order
  with_order-Keeps environment row session supply room id old h =
      emplace-other (next_id environment session) id row session.database.orders (
        apart (next_id environment session) id old session.database.orders
          (supply.unused session.drawn (omega arith) (omega (arith, room))) h)
      ∙ h

  pub with_order-found :
      (environment : Environment P) (row : OrderRow P) (session : Session P)
      → IsSupply environment session
      → Affords environment 1 session
      → lookup (next_id environment session) (with_order environment row session).database.orders
        ≡ some row
  unfolding insert_order
  with_order-found environment row session supply room =
      emplace-new (next_id environment session) row session.database.orders
        (supply.unused session.drawn (omega arith) (omega (arith, room)))

  -- A removal concerns the row of its id only.
  pub delete_order-other :
      (of_status : OrderStatus → Bool) (client id other : RowId) (orders : Map RowId (OrderRow P))
      → (id ≡ other → ⊥)
      → lookup other (delete_order of_status client id orders) ≡ lookup other orders
  delete_order-other of_status client id other orders h = elim (Option-cases (lookup id orders)) [
    | inl k ↦ rw (k, delete_order) refl
    | inr (row, k) ↦
        rw (k, delete_order)
          (either (λ left. lookup other left ≡ lookup other orders)
            (of_status row.order_status && eqb row.client_id client)
            (ground (arith, lookup-erase id other orders, eqb_iff id other, h)) refl)
  ]

  pub delete_order-none :
      (of_status : OrderStatus → Bool) (client id other : RowId) (orders : Map RowId (OrderRow P))
      → lookup other orders ≡ none
      → lookup other (delete_order of_status client id orders) ≡ none
  delete_order-none of_status client id other orders h = elim (Option-cases (lookup id orders)) [
    | inl k ↦ rw (k, delete_order) h
    | inr (row, k) ↦
        rw (k, delete_order)
          (either (λ left. lookup other left ≡ none)
            (of_status row.order_status && eqb row.client_id client)
            (ground (arith, lookup-erase id other orders, h)) h)
  ]
