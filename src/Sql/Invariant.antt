-- ===== src/Sql/Invariant.antt =====
-- Src_SQL/market.cpp: the invariant of the market, and trading in one action.
use stock_market_trading_sim.Common.{
  ap, ◌≤◌, length, ◌+◌, ℕ, ◌≡◌, refl, sym, ◌∙◌, subst, inl, inr, some, List, [], ◌∷◌, map, arith,
  eqb, eqb_iff, Bool-cases,
}
use stock_market_trading_sim.Common.Keys.{id_key}
use stock_market_trading_sim.Common.Maps.{lookup, insert, get_or, lookup-insert}
use stock_market_trading_sim.Double.{Double}
use stock_market_trading_sim.Sql.Database.{
  RowId, OrderType, OrderStatus, OrderRow, Database, Environment,
}
use stock_market_trading_sim.Sql.Market.{Market, Books, rank}
use stock_market_trading_sim.Sql.Supply.{IsSupply}
use stock_market_trading_sim.Sql.Resting.{Rests, rank-found}
use stock_market_trading_sim.Sql.Sweeping.{Elsewhere}
use stock_market_trading_sim.Sql.Priority.{InPriority}

abbrev pub queue : RowId → Books → List RowId
queue action books = get_or action [] books

pub queue-own :
    (action : RowId) (ids : List RowId) (books : Books)
    → queue action (insert action ids books) ≡ ids
unfolding get_or
queue-own action ids books =
    ground (arith, lookup-insert action action ids books, eqb_iff action action)

-- One more order in one queue is at most one more in each.
pub queue-longer :
    (action other : RowId) (ids : List RowId) (books : Books)
    → length ids ≤ length (queue action books) + 1
    → length (queue other (insert action ids books)) ≤ length (queue other books) + 1
unfolding get_or
queue-longer action other ids books h = elim (Bool-cases (eqb action other)) [
  | inl k ↦
      let e : action ≡ other = (eqb_iff action other).0 k in
      subst (λ a. length (queue a (insert action ids books)) ≤ length (queue a books) + 1) e
        (omega (arith, h, ap length (queue-own action ids books)))
  | inr k ↦ rw (lookup-insert action other ids books, k) (omega arith)
]

-- The orders of an action in the books, and those of several actions.
abbrev pub resting_orders : {P : Type 0} → RowId → Market P → ℕ
resting_orders action market =
    length (queue action market.buy_orders) + length (queue action market.sell_orders)

abbrev pub resting_in : {P : Type 0} → List RowId → Market P → ℕ
resting_in [] market = 0
resting_in (action ∷ actions) market = resting_orders action market + resting_in actions market

module _ {P : Type 0} ⦃double : Double P⦄ (environment : Environment P) where
  -- A queue: its orders rest, once each, in order of priority.
  abbrev pub IsQueue : OrderType → RowId → Database P → List RowId → Type 0
  IsQueue type action database ids =
      Rests environment type action database ids × InPriority type (map (rank database) ids)

  pub record IsMarket (market : Market P) : Type 0 where
    pub supplied : IsSupply environment market.session
    pub buys :
        (action : RowId)
        → IsQueue OrderType.buy action market.session.database (queue action market.buy_orders)
    pub sells :
        (action : RowId)
        → IsQueue OrderType.sell action market.session.database (queue action market.sell_orders)

  -- The orders of other actions rest as before.
  abbrev KeepsOthers : RowId → Database P → Database P → Type 0
  KeepsOthers action database changed =
      (id : RowId) (row : OrderRow P)
      → lookup id database.orders ≡ some row
      → Elsewhere action row
      → lookup id changed.orders ≡ some row

  -- The pending orders of an action are there.
  abbrev pub KeepsPending : RowId → Database P → Database P → Type 0
  KeepsPending action database changed =
      (id : RowId) (row : OrderRow P)
      → lookup id database.orders ≡ some row
      → row.action_id ≡ action
      → row.order_status ≡ OrderStatus.pending
      → lookup id changed.orders ≡ some row

  Rests-moved :
      (type : OrderType) (action : RowId) (ids : List RowId) (database changed : Database P)
      → KeepsPending action database changed
      → Rests environment type action database ids
      → Rests environment type action changed ids
        × (map (rank changed) ids ≡ map (rank database) ids)
  Rests-moved type action [] database changed kept r = (tt, refl)
  Rests-moved type action (id ∷ ids) database changed kept (r, apart, rs) =
      let (left, same) = Rests-moved type action ids database changed kept rs in
      let found = kept id r.row r.found r.of_action r.still_pending in
      let own = rank-found environment id r.row database r.found in
      let own' = rank-found environment id r.row changed found in
      (
        (
          record {
            row = r.row;
            found = found;
            still_pending = r.still_pending;
            of_type = r.of_type;
            of_action = r.of_action;
            exact = r.exact;
          },
          apart,
          left,
        ),
        rw (own, own', same) refl,
      )

  pub IsQueue-moved :
      (type : OrderType) (action : RowId) (ids : List RowId) (database changed : Database P)
      → KeepsPending action database changed
      → IsQueue type action database ids
      → IsQueue type action changed ids
  IsQueue-moved type action ids database changed kept (rs, p) =
      let (left, same) = Rests-moved type action ids database changed kept rs in (left, rw same p)

  -- The queues where that of one action is another.
  pub queues-with :
      (type : OrderType) (action : RowId) (books : Books) (ids : List RowId) (changed : Database P)
      → IsQueue type action changed ids
      → ((other : RowId) → (other ≡ action → ⊥) → IsQueue type other changed (queue other books))
      → (other : RowId) → IsQueue type other changed (queue other (insert action ids books))
  unfolding get_or
  queues-with type action books ids changed q qs other =
      rw (lookup-insert action other ids books) (elim (Bool-cases (eqb action other)) [
        | inl k ↦ rw k (
            let e : action ≡ other = (eqb_iff action other).0 k in
            subst (λ a. IsQueue type a changed ids) e q)
        | inr k ↦ rw k (qs other (λ e. absurd (ground (arith, k, eqb_iff action other, e))))
      ])

  pub queues-replaced :
      (type : OrderType) (action : RowId) (books : Books) (ids : List RowId)
      (database changed : Database P)
      → KeepsOthers action database changed
      → IsQueue type action changed ids
      → ((other : RowId) → IsQueue type other database (queue other books))
      → (other : RowId) → IsQueue type other changed (queue other (insert action ids books))
  queues-replaced type action books ids database changed kept q qs =
      queues-with type action books ids changed q (λ other h.
        IsQueue-moved type other (queue other books) database changed
          (λ id row k e p. kept id row k (λ e' p'. h (sym e ∙ e'))) (qs other))
