-- ===== src/Sql/Passes.antt =====
-- Src_SQL/server.cpp: a whole round of the watcher.
use stock_market_trading_sim.Common.{
  length, ◌≤◌, ◌*◌, ◌+◌, ℕ, ◌≡◌, refl, Bool, true, none, some, [], ◌∷◌, All, arith, eqb, eqb_iff,
  either, Bool-cases, inl, inr,
}
use stock_market_trading_sim.Common.Keys.{id_key}
use stock_market_trading_sim.Common.Maps.{Map, lookup, Distinct}
use stock_market_trading_sim.Double.{Double, IsOrdered}
use stock_market_trading_sim.Sql.{get_daily_time, get_date_time}
use stock_market_trading_sim.Sql.Database.{RowId, OrderStatus, is_waiting, OrderRow, Environment}
use stock_market_trading_sim.Sql.Market.{Market}
use stock_market_trading_sim.Sql.Watcher.{get_waiting_orders, watch_orders, watcher_pass}
use stock_market_trading_sim.Sql.Supply.{Affords, apart}
use stock_market_trading_sim.Sql.Invariant.{resting_orders, IsMarket}
use stock_market_trading_sim.Sql.Waiting.{Watched, Waits}
use stock_market_trading_sim.Sql.Watching.{watch_order-Watched}

status_waiting : (status : OrderStatus) → is_waiting status ≡ true → status ≡ OrderStatus.waiting
status_waiting OrderStatus.waiting h = refl
status_waiting OrderStatus.pending h = absurd (ground (arith, h))
status_waiting OrderStatus.completed h = absurd (ground (arith, h))

-- The random numbers that a round of the watcher draws at most: for each waiting order one for its
-- message, five for it and for each order of its action, and five for each that enters later.
abbrev pub pass_draws : {P : Type 0} → Map RowId (OrderRow P) → Market P → ℕ
pass_draws [] market = 0
pass_draws ((order_id, row) ∷ orders) market =
    6 + 5 * resting_orders row.action_id market + 5 * length orders + pass_draws orders market

module _ {P : Type 0} ⦃double : Double P⦄ (environment : Environment P) where
  abbrev AllWait : Market P → Map RowId (OrderRow P) → Type 0
  AllWait market [] = Unit
  AllWait market ((order_id, row) ∷ orders) =
      Waits environment market order_id row
      × All (λ entry. order_id ≡ entry.0 → ⊥) orders
      × AllWait market orders

  AllWait-kept :
      (draws grows : ℕ) (order_id : RowId) (market later : Market P)
      (orders : Map RowId (OrderRow P))
      → Watched environment draws grows order_id market later
      → All (λ entry. order_id ≡ entry.0 → ⊥) orders
      → AllWait market orders
      → AllWait later orders
  AllWait-kept draws grows order_id market later [] w hs a = tt
  AllWait-kept draws grows order_id market later ((other, row) ∷ orders) w (h, hs) (own, apart, a) =
      (
        record {
          stored = own.stored;
          found = w.still_waiting other own.stored h own.is_wait own.found;
          is_wait = own.is_wait;
          is_row = own.is_row;
        },
        apart,
        AllWait-kept draws grows order_id market later orders w hs a,
      )

  -- Later there is at most one more order in each book.
  pass_draws-le :
      (market later : Market P) (orders : Map RowId (OrderRow P))
      → ((action : RowId) → resting_orders action later ≤ resting_orders action market + 1)
      → pass_draws orders later ≤ pass_draws orders market + 5 * length orders
  pass_draws-le market later [] h = omega arith
  pass_draws-le market later ((order_id, row) ∷ orders) h =
      omega (arith, h row.action_id, pass_draws-le market later orders h)

  watch_orders-IsMarket :
      (laws : IsOrdered P) (is_continuous : Bool) (now_date now_daily : ℕ)
      (orders : Map RowId (OrderRow P)) (market : Market P)
      → ((price : P)
          → environment.through_text (environment.through_text price)
            ≡ environment.through_text price)
      → AllWait market orders
      → IsMarket environment market
      → Affords environment (pass_draws orders market) market.session
      → (later : Market P) × (watch_orders environment is_continuous now_date now_daily orders
            market
          ≡ some later)
        × IsMarket environment later
  unfolding watch_orders
  watch_orders-IsMarket laws is_continuous now_date now_daily [] market text a m room =
      (market, refl, m)
  watch_orders-IsMarket laws is_continuous now_date now_daily ((order_id, row) ∷ orders) market text
        (own, apart, a) m room =
      let (middle, e, w) =
        watch_order-Watched environment laws is_continuous now_date now_daily order_id row market
          text own m (omega (arith, room)) in
      let (later, k, l) =
        watch_orders-IsMarket laws is_continuous now_date now_daily orders middle text
          (AllWait-kept _ _ order_id market middle orders w apart a) w.is_market
          (omega (arith, room, w.drawn_within, pass_draws-le market middle orders w.grown)) in
      (later, rw e k, l)

  waiting-apart :
      (own : RowId) (orders : Map RowId (OrderRow P))
      → lookup own orders ≡ none
      → All (λ entry. own ≡ entry.0 → ⊥) (get_waiting_orders environment orders)
  unfolding get_waiting_orders lookup
  waiting-apart own [] h = tt
  waiting-apart own ((id, row) ∷ orders) h = elim (Bool-cases (eqb id own)) [
    | inl k ↦ absurd (ground (arith, h, k))
    | inr k ↦
        let behind = waiting-apart own orders (ground (arith, h, k)) in
        either (All (λ (entry : RowId × OrderRow P). own ≡ entry.0 → ⊥))
          (is_waiting row.order_status) (λ e. absurd (ground (arith, k, eqb_iff id own, e)), behind)
          behind
  ]

  later_row :
      (id other : RowId) (row old : OrderRow P) (orders : Map RowId (OrderRow P))
      → lookup id orders ≡ none
      → lookup other orders ≡ some old
      → lookup other ((id, row) ∷ orders) ≡ some old
  unfolding lookup
  later_row id other row old orders h l = elim (Bool-cases (eqb id other)) [
    | inl k ↦ absurd (apart id other old orders h l ((eqb_iff id other).0 k))
    | inr k ↦ rw k l
  ]

  -- Every row that the query gives is of the table, and waits.
  stored-AllWait :
      (market : Market P) (orders : Map RowId (OrderRow P))
      → ((id : RowId) (row : OrderRow P)
          → lookup id orders ≡ some row
          → lookup id market.session.database.orders ≡ some row)
      → Distinct orders
      → AllWait market (get_waiting_orders environment orders)
  unfolding get_waiting_orders lookup
  stored-AllWait market [] there d = tt
  stored-AllWait market ((id, row) ∷ orders) there (h, d) =
      let behind =
        stored-AllWait market orders
          (λ other old l. there other old (later_row id other row old orders h l)) d in
      elim (Bool-cases (is_waiting row.order_status)) [
        | inr k ↦ rw k behind
        | inl k ↦ rw k (
          record {
            stored = row;
            found = there id row (ground (arith, eqb_iff id id));
            is_wait = status_waiting row.order_status k;
            is_row = refl;
          },
          waiting-apart id orders h,
          behind,
        )
      ]

  -- In a market whose queues hold resting orders, once each and in order of priority, and where the
  -- random numbers of the run are different and those to come are in no table, if there are enough
  -- of them left (for each waiting order six, five for each order of its action and five for each
  -- waiting order after it), no two rows of orders share an id and writing a price as text twice is
  -- writing it once, a round of the watcher returns such a market.
  pub watcher_pass-IsMarket :
      (laws : IsOrdered P) (is_continuous : Bool) (now : ℕ) (market : Market P)
      → ((price : P)
          → environment.through_text (environment.through_text price)
            ≡ environment.through_text price)
      → Distinct market.session.database.orders
      → IsMarket environment market
      → Affords environment
          (pass_draws (get_waiting_orders environment market.session.database.orders) market)
          market.session
      → (later : Market P) × (watcher_pass environment is_continuous now market ≡ some later)
        × IsMarket environment later
  unfolding watcher_pass
  watcher_pass-IsMarket laws is_continuous now market text d m room =
      watch_orders-IsMarket laws is_continuous (get_date_time environment.localtime now)
        (get_daily_time environment.localtime now) _ market text
        (stored-AllWait market market.session.database.orders (λ id row h. h) d) m room
