-- ===== src/Sql/Reach.antt =====
-- Src_SQL/market.cpp: the markets that orders and trading reach from an empty book.
use stock_market_trading_sim.Common.{◌*◌, ◌≡◌, sym, ◌∙◌, subst, some, []}
use mathlib.Core.Option.{some-injective}
use stock_market_trading_sim.Common.Maps.{lookup, get_or}
use stock_market_trading_sim.Double.{Double, IsOrdered}
use stock_market_trading_sim.Sql.Database.{RowId, OrderType, OrderRow, Environment}
use stock_market_trading_sim.Sql.Market.{Session, Market, accumulate_order}
use stock_market_trading_sim.Sql.Loops.{keys_of, process_continuous_trading, process_fixing}
use stock_market_trading_sim.Sql.Supply.{IsSupply, Affords}
use stock_market_trading_sim.Sql.Invariant.{IsMarket, resting_orders, resting_in}
use stock_market_trading_sim.Sql.Continuous.{process_continuous_trading-Traded}
use stock_market_trading_sim.Sql.Fixing.{IsFixed, process_fixing-IsFixed}
use stock_market_trading_sim.Sql.Entering.{IsEntry, accumulate_order-IsMarket}

module _ {P : Type 0} ⦃double : Double P⦄ (environment : Environment P) where
  -- `Market`'s constructor: no book has an entry.
  abbrev pub opened : Session P → Market P
  opened session = record { session = session; buy_orders = []; sell_orders = [] }

  -- Orders that enter, continuous trading and fixings, in any order, while the random numbers of
  -- the run last: five for each order that may trade.
  pub data Reaches (session : Session P) : Market P → Type 0 where
    at_opening : Reaches session (opened session)
    entering :
        (market : Market P) (type : OrderType) (order_id : RowId) (row : OrderRow P)
        → Reaches session market
        → IsEntry environment market type order_id row
        → Reaches session (accumulate_order type order_id row market)
    trading :
        (market later : Market P) (action : RowId)
        → Reaches session market
        → Affords environment (5 * resting_orders action market) market.session
        → process_continuous_trading environment action market ≡ some later
        → Reaches session later
    fixing :
        (market later : Market P)
        → Reaches session market
        → Affords environment (5 * resting_in (keys_of market.buy_orders) market) market.session
        → process_fixing environment market ≡ some later
        → Reaches session later

  opened-IsMarket :
      (session : Session P) → IsSupply environment session → IsMarket environment (opened session)
  unfolding get_or lookup
  opened-IsMarket session supply = record {
    supplied = supply;
    buys = λ action. (tt, tt);
    sells = λ action. (tt, tt);
  }

  pub Reaches-IsMarket :
      (laws : IsOrdered P) (session : Session P) (market : Market P)
      → IsSupply environment session
      → Reaches session market
      → IsMarket environment market
  Reaches-IsMarket laws session market supply at_opening = opened-IsMarket session supply
  Reaches-IsMarket laws session market supply (entering before type order_id row r entry) =
      accumulate_order-IsMarket environment laws type order_id row before entry
        (Reaches-IsMarket laws session before supply r)
  Reaches-IsMarket laws session market supply (trading before later action r room e) =
      let (later', k, traded) =
        process_continuous_trading-Traded environment action before
          (Reaches-IsMarket laws session before supply r) room in
      subst (IsMarket environment) (some-injective later' later (sym k ∙ e)) traded.is_market
  Reaches-IsMarket laws session market supply (fixing before later r room e) =
      let (later', k, fixed, _) =
        process_fixing-IsFixed environment before (Reaches-IsMarket laws session before supply r)
          room in
      subst (IsMarket environment) (some-injective later' later (sym k ∙ e)) fixed

  -- Where the order of doubles is irreflexive and transitive and the random numbers of the run are different and in no table, in every
  -- market that entries of orders under new ids, continuous trading and fixings reach from empty
  -- books while five of those numbers are left for each order that may trade, the orders rest, once each and in order of priority, and continuous trading and a fixing,
  -- where as many numbers are left for them, return; then, in the action of the one and in every action of the other, a side is empty, or
  -- the first two orders do not cross, lack a client or have no positive quantity.
  pub Reaches-trades :
      (laws : IsOrdered P) (session : Session P) (market : Market P) (action : RowId)
      → IsSupply environment session
      → Reaches session market
      → Affords environment (5 * resting_orders action market) market.session
      → Affords environment (5 * resting_in (keys_of market.buy_orders) market) market.session
      → IsMarket environment market
        × ((later : Market P) × (process_continuous_trading environment action market ≡ some later)
            × IsFixed environment action later)
        × ((later : Market P) × (process_fixing environment market ≡ some later)
            × ((other : RowId) → IsFixed environment other later))
  Reaches-trades laws session market action supply r room room' =
      let m = Reaches-IsMarket laws session market supply r in
      let (later, e, traded) = process_continuous_trading-Traded environment action market m room in
      let (later', k, _, fixed) = process_fixing-IsFixed environment market m room' in
      (m, (later, e, traded.is_over), (later', k, fixed))
