-- ===== src/Sql/Continuous.antt =====
-- Src_SQL/market.cpp: trading in one action, and process_continuous_trading.
use stock_market_trading_sim.Common.{
  ap, ◌*◌, ◌+◌, ◌≡◌, refl, subst, inl, inr, Bool, true, false, ◌||◌, Option, none, some, List, [],
  ◌∷◌, length, arith, eqb, eqb_iff, Bool-cases, Option-cases, if◌then◌else◌,
}
use stock_market_trading_sim.Common.Keys.{id_key}
use stock_market_trading_sim.Common.Maps.{lookup, insert, get_or, lookup-insert}
use stock_market_trading_sim.Double.{Double}
use stock_market_trading_sim.Sql.Database.{RowId, OrderType, Database, Environment}
use stock_market_trading_sim.Sql.Market.{Session, Market, Books}
use stock_market_trading_sim.Sql.Trading.{Round, continuous_round}
use stock_market_trading_sim.Sql.Loops.{Sweep, no_orders, trade_action, process_continuous_trading}
use stock_market_trading_sim.Sql.Supply.{Affords}
use stock_market_trading_sim.Sql.Resting.{Rests}
use stock_market_trading_sim.Sql.Rounds.{IsRound, continuous_round-IsRound}
use stock_market_trading_sim.Sql.Sweeping.{IsOver, Progress, Progress-none}
use stock_market_trading_sim.Sql.Ending.{sweep_orders-ends}
use stock_market_trading_sim.Sql.Priority.{InPriority-drop}
use stock_market_trading_sim.Sql.Invariant.{
  queue, resting_orders, queue-own, IsMarket, queues-replaced,
}

or_true : (b : Bool) → b || true ≡ true
or_true false = refl
or_true true = refl

module _ {P : Type 0} ⦃double : Double P⦄ (environment : Environment P) where
  -- What trading in an action does to the market.
  pub record Traded (action : RowId) (market later : Market P) : Type 0 where
    pub is_market : IsMarket environment later
    pub progress :
        Progress environment action market.session
          (queue action market.buy_orders)
          (queue action market.sell_orders)
          later.session
          (queue action later.buy_orders)
          (queue action later.sell_orders)
    pub is_over :
        IsOver environment action later.session.database
          (queue action later.buy_orders)
          (queue action later.sell_orders)
    pub others_untouched :
        (other : RowId)
        → (other ≡ action → ⊥)
        → (queue other later.buy_orders ≡ queue other market.buy_orders)
          × (queue other later.sell_orders ≡ queue other market.sell_orders)

  IsOver-one_empty :
      (action : RowId) (database : Database P) (buys sells : List RowId)
      → (no_orders buys || no_orders sells) ≡ true
      → IsOver environment action database buys sells
  IsOver-one_empty action database [] sells h = tt
  IsOver-one_empty action database (bought ∷ buys) [] h = tt
  IsOver-one_empty action database (bought ∷ buys) (sold ∷ sells) h = absurd (ground (arith, h))

  Traded-none :
      (action : RowId) (market : Market P)
      → IsMarket environment market
      → (no_orders (queue action market.buy_orders) || no_orders (queue action market.sell_orders))
        ≡ true
      → Traded action market market
  Traded-none action market m h = record {
    is_market = m;
    progress =
        Progress-none environment action market.session _ _ m.supplied (m.buys action).0
          (m.sells action).0;
    is_over = IsOver-one_empty action market.session.database _ _ h;
    others_untouched = λ other k. (refl, refl);
  }

  queue-found :
      (action : RowId) (books : Books) (ids : List RowId)
      → lookup action books ≡ some ids
      → queue action books ≡ ids
  unfolding get_or
  queue-found action books ids h = rw h refl

  pub queue-missing :
      (action : RowId) (books : Books) → lookup action books ≡ none → queue action books ≡ []
  unfolding get_or
  queue-missing action books h = rw h refl

  queue-insert :
      (action other : RowId) (ids : List RowId) (books : Books)
      → queue other (insert action ids books)
        ≡ (if eqb action other then ids else queue other books)
  unfolding get_or
  queue-insert action other ids books =
      ground (arith, lookup-insert action other ids books, eqb_iff action other)

  Traded-swept :
      (action : RowId) (market : Market P) (after : Sweep P)
      → IsMarket environment market
      → Progress environment action market.session
          (queue action market.buy_orders)
          (queue action market.sell_orders)
          after.session
          after.buys
          after.sells
      → IsOver environment action after.session.database after.buys after.sells
      → Traded action market record {
        session = after.session;
        buy_orders = insert action after.buys market.buy_orders;
        sell_orders = insert action after.sells market.sell_orders;
      }
  Traded-swept action market after m progress over =
      let (n, b) = progress.buys_follow in
      let (k, s) = progress.sells_follow in
      record {
        is_market = record {
          supplied = progress.supplied;
          buys =
              queues-replaced environment OrderType.buy action market.buy_orders after.buys
                market.session.database after.session.database progress.others_kept
                (progress.buys_rest, rw b (InPriority-drop OrderType.buy n _ (m.buys action).1))
                m.buys;
          sells =
              queues-replaced environment OrderType.sell action market.sell_orders after.sells
                market.session.database after.session.database progress.others_kept
                (progress.sells_rest, rw s (InPriority-drop OrderType.sell k _ (m.sells action).1))
                m.sells;
        };
        progress =
            rw
              (
                queue-own action after.buys market.buy_orders,
                queue-own action after.sells market.sell_orders,
              )
              progress;
        is_over =
            rw
              (
                queue-own action after.buys market.buy_orders,
                queue-own action after.sells market.sell_orders,
              )
              over;
        others_untouched = λ other h. (
          ground (
            arith,
            queue-insert action other after.buys market.buy_orders,
            eqb_iff action other,
            h,
          ),
          ground (
            arith,
            queue-insert action other after.sells market.sell_orders,
            eqb_iff action other,
            h,
          ),
        );
      }

  -- Trading in an action returns, with either of the two rounds.
  pub trade_action-Traded :
      (round : RowId → RowId → Session P → Option (Round P)) (action : RowId) (market : Market P)
      → IsRound environment action round
      → IsMarket environment market
      → Affords environment (5 * resting_orders action market) market.session
      → (later : Market P) × (trade_action round action market ≡ some later)
        × Traded action market later
  unfolding trade_action
  trade_action-Traded round action market is_round m room =
      elim (Option-cases (lookup action market.buy_orders)) [
        | inl k ↦ (
          market,
          rw (k, trade_action) refl,
          Traded-none action market m (rw (queue-missing action market.buy_orders k) refl),
        )
        | inr (buys, k) ↦ elim (Option-cases (lookup action market.sell_orders)) [
          | inl l ↦ (
            market,
            rw (k, l, trade_action) refl,
            Traded-none action market m
                (rw (queue-missing action market.sell_orders l) (or_true (no_orders _))),
          )
          | inr (sells, l) ↦
              let b = queue-found action market.buy_orders buys k in
              let s = queue-found action market.sell_orders sells l in
              elim (Bool-cases (no_orders buys || no_orders sells)) [
                | inl e ↦ (
                  market,
                  rw (k, l, e, trade_action) refl,
                  Traded-none action market m (rw (b, s) e),
                )
                | inr e ↦
                    let (after, swept, progress, over) =
                      sweep_orders-ends environment action round (length buys + length sells)
                        market.session buys sells is_round (omega arith) m.supplied
                        (subst (Rests environment OrderType.buy action market.session.database) b
                          (m.buys action).0)
                        (subst (Rests environment OrderType.sell action market.session.database) s
                          (m.sells action).0)
                        (omega (arith, room, ap length b, ap length s)) in
                    (
                      _,
                      rw (k, l, e, swept, trade_action) refl,
                      Traded-swept action market after m (rw (b, s) progress) over,
                    )
              ]
        ]
      ]

  -- In a market whose queues hold resting orders, once each and in order of priority, where the
  -- random numbers of the run are different and those to come are in no table, and where five of them are
  -- left for each order of the action, process_continuous_trading returns such a market. It draws
  -- at most five for each order that is gone. In its action the orders
  -- that rest are the old ones from some places on, by their ranks, as much was bought as sold, and
  -- a side is empty, or the first two orders do not cross, lack a client or have no positive
  -- quantity. The queues of other actions are untouched.
  pub process_continuous_trading-Traded :
      (action : RowId) (market : Market P)
      → IsMarket environment market
      → Affords environment (5 * resting_orders action market) market.session
      → (later : Market P) × (process_continuous_trading environment action market ≡ some later)
        × Traded action market later
  unfolding process_continuous_trading
  process_continuous_trading-Traded action market m room =
      trade_action-Traded (continuous_round environment action) action market
        (continuous_round-IsRound environment action) m room
