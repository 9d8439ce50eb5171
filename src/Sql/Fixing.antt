-- ===== src/Sql/Fixing.antt =====
-- Src_SQL/market.cpp: process_fixing, and the ends of its loops over the actions.
use stock_market_trading_sim.Common.{
  length, ap, ◌≤◌, ◌*◌, ◌≡◌, refl, sym, ◌∙◌, subst, ◌⊎◌, inl, inr, none, some, List, [], ◌∷◌, Any,
  arith, eqb, eqb_iff, Bool-cases,
}
use stock_market_trading_sim.Common.Keys.{id_key}
use stock_market_trading_sim.Common.Maps.{lookup}
use stock_market_trading_sim.Double.{Double}
use stock_market_trading_sim.Sql.Database.{
  RowId, OrderType, OrderRow, Database, Environment, select_id,
}
use stock_market_trading_sim.Sql.Market.{Market, Books, client_exists}
use stock_market_trading_sim.Sql.Trading.{fixing_round}
use stock_market_trading_sim.Sql.Loops.{keys_of, trade_actions, process_fixing}
use stock_market_trading_sim.Sql.Supply.{Affords}
use stock_market_trading_sim.Sql.Resting.{Resting, Rests, get_price-found}
use stock_market_trading_sim.Sql.Rounds.{fixing_round-IsRound}
use stock_market_trading_sim.Sql.Sweeping.{Elsewhere, IsOver}
use stock_market_trading_sim.Sql.Invariant.{queue, resting_orders, resting_in, IsMarket}
use stock_market_trading_sim.Sql.Continuous.{Traded, trade_action-Traded, queue-missing}

module _ {P : Type 0} ⦃double : Double P⦄ (environment : Environment P) where
  -- The loop over an action has ended.
  abbrev pub IsFixed : RowId → Market P → Type 0
  IsFixed action market =
      IsOver environment action market.session.database (queue action market.buy_orders)
        (queue action market.sell_orders)

  same_client :
      (client : RowId) (database changed : Database P)
      → select_id client changed.clients ≡ select_id client database.clients
      → client_exists client changed ≡ client_exists client database
  unfolding client_exists
  same_client client database changed h = rw h refl

  other-found :
      (type : OrderType) (action other id : RowId) (database changed : Database P)
      → ((id : RowId) (row : OrderRow P)
          → lookup id database.orders ≡ some row
          → Elsewhere action row
          → lookup id changed.orders ≡ some row)
      → (other ≡ action → ⊥)
      → (r : Resting environment type other database id) → lookup id changed.orders ≡ some r.row
  other-found type action other id database changed kept h r =
      kept id r.row r.found (λ e p. h (sym r.of_action ∙ e))

  IsOver-kept :
      (action other : RowId) (buys sells : List RowId) (database changed : Database P)
      → ((id : RowId) (row : OrderRow P)
          → lookup id database.orders ≡ some row
          → Elsewhere action row
          → lookup id changed.orders ≡ some row)
      → ((client : RowId) → select_id client changed.clients ≡ select_id client database.clients)
      → (other ≡ action → ⊥)
      → Rests environment OrderType.buy other database buys
      → Rests environment OrderType.sell other database sells
      → IsOver environment other database buys sells
      → IsOver environment other changed buys sells
  IsOver-kept action other [] sells database changed kept same h bs ss over = tt
  IsOver-kept action other (bought ∷ buys) [] database changed kept same h bs ss over = tt
  IsOver-kept action other (bought ∷ buys) (sold ∷ sells) database changed kept same h (b, _, _)
        (s, _, _) (inl low) =
      let found = other-found OrderType.buy action other bought database changed kept h b in
      let found' = other-found OrderType.sell action other sold database changed kept h s in
      inl (
        rw
          (
            get_price-found environment bought b.row changed found,
            get_price-found environment sold s.row changed found',
          )
          (rw
            (
              sym (get_price-found environment bought b.row database b.found),
              sym (get_price-found environment sold s.row database s.found),
            )
            low))
  IsOver-kept action other (bought ∷ buys) (sold ∷ sells) database changed kept same h (b, _, _)
        (s, _, _) (inr (buyer, seller, k, l, block)) =
      inr (
        buyer,
        seller,
        other-found OrderType.buy action other bought database changed kept h b ∙ sym b.found ∙ k,
        other-found OrderType.sell action other sold database changed kept h s ∙ sym s.found ∙ l,
        rw
            (
              same_client buyer.client_id database changed (same buyer.client_id),
              same_client seller.client_id database changed (same seller.client_id),
            )
            block,
      )

  -- What was fixed stays so when another action is traded, and an action that is traded is fixed.
  IsFixed-kept :
      (action other : RowId) (market later : Market P)
      → IsMarket environment market
      → Traded environment action market later
      → IsFixed other market ⊎ (action ≡ other)
      → IsFixed other later
  IsFixed-kept action other market later m t over = elim (Bool-cases (eqb other action)) [
    | inl k ↦
        let e : action ≡ other = sym ((eqb_iff other action).0 k) in
        subst (λ a. IsFixed a later) e t.is_over
    | inr k ↦
        let apart : other ≡ action → ⊥ = λ e. absurd (ground (arith, k, eqb_iff other action, e)) in
        elim over [
          | inl fixed ↦
              let (b, s) = t.others_untouched other apart in
              rw (b, s)
                (IsOver-kept action other (queue other market.buy_orders)
                  (queue other market.sell_orders) market.session.database later.session.database
                  t.progress.others_kept t.progress.same_clients apart (m.buys other).0
                  (m.sells other).0 fixed)
          | inr e ↦ absurd (apart (sym e))
        ]
  ]

  -- Trading in one action leaves no action with more orders.
  pub resting_orders-le :
      (action other : RowId) (market later : Market P)
      → Traded environment action market later
      → resting_orders other later ≤ resting_orders other market
  resting_orders-le action other market later t = elim (Bool-cases (eqb other action)) [
    | inl k ↦
        subst (λ a. resting_orders a later ≤ resting_orders a market)
          (sym ((eqb_iff other action).0 k)) t.progress.not_more
    | inr k ↦
        let (b, s) =
          t.others_untouched other (λ e. absurd (ground (arith, k, eqb_iff other action, e))) in
        omega (arith, ap length b, ap length s)
  ]

  resting_in-le :
      (actions : List RowId) (action : RowId) (market later : Market P)
      → Traded environment action market later
      → resting_in actions later ≤ resting_in actions market
  resting_in-le [] action market later t = omega arith
  resting_in-le (other ∷ actions) action market later t = omega (
    arith,
    resting_in-le actions action market later t,
    resting_orders-le action other market later t,
  )

  trade_actions-fix :
      (actions : List RowId) (market : Market P)
      → IsMarket environment market
      → Affords environment (5 * resting_in actions market) market.session
      → (later : Market P) × (trade_actions (fixing_round environment) actions market ≡ some later)
        × IsMarket environment later
        × ((other : RowId)
            → IsFixed other market ⊎ Any (λ action. action ≡ other) actions
            → IsFixed other later)
  unfolding trade_actions
  trade_actions-fix [] market m room =
      (market, refl, m, λ other over. elim over [ inl fixed ↦ fixed | inr never ↦ absurd never ])
  trade_actions-fix (action ∷ actions) market m room =
      let (middle, e, t) =
        trade_action-Traded environment (fixing_round environment action) action market
          (fixing_round-IsRound environment action) m (omega (arith, room)) in
      let (later, k, l, fixes) = trade_actions-fix actions middle t.is_market (
        omega
          (arith, room, t.progress.drawn_within, resting_in-le actions action market middle t)) in
      (
        later,
        rw e k,
        l,
        λ other over. fixes other (elim over [
          | inl fixed ↦ inl (IsFixed-kept action other market middle m t (inl fixed))
          | inr (inl same) ↦ inl (IsFixed-kept action other market middle m t (inr same))
          | inr (inr there) ↦ inr there
        ]),
      )

  key-cases :
      (action : RowId) (books : Books)
      → (lookup action books ≡ none) ⊎ Any (λ key. key ≡ action) (keys_of books)
  unfolding lookup
  key-cases action [] = inl refl
  key-cases action ((key, ids) ∷ books) = elim (Bool-cases (eqb key action)) [
    | inl k ↦ inr (inl ((eqb_iff key action).0 k))
    | inr k ↦ rw k (elim (key-cases action books) [ inl h ↦ inl h | inr h ↦ inr (inr h) ])
  ]

  -- In a market whose queues hold resting orders, once each and in order of priority, where the
  -- random numbers of the run are different and those to come are in no table, and where five of
  -- them are left for each order, process_fixing returns such a market, where in every action a side is empty,
  -- or the first two orders do not cross, lack a client or have no positive quantity.
  pub process_fixing-IsFixed :
      (market : Market P)
      → IsMarket environment market
      → Affords environment (5 * resting_in (keys_of market.buy_orders) market) market.session
      → (later : Market P) × (process_fixing environment market ≡ some later)
        × IsMarket environment later
        × ((action : RowId) → IsFixed action later)
  unfolding process_fixing
  process_fixing-IsFixed market m room =
      let (later, e, l, fixes) = trade_actions-fix (keys_of market.buy_orders) market m room in
      (
        later,
        e,
        l,
        λ action. fixes action (elim (key-cases action market.buy_orders) [
          | inl h ↦ inl (rw (queue-missing environment action market.buy_orders h) tt)
          | inr h ↦ inr h
        ]),
      )
