-- ===== src/Sql/Loops.antt =====
-- Src_SQL/market.cpp: process_fixing and process_continuous_trading, whose two loops have one body
-- but for the checks before a transaction.

use stock_market_trading_sim.Common.{
  ℕ, zero, suc, ◌+◌, Bool, true, false, ◌||◌, Option, none, some, List, [], ◌∷◌, map, length,
  if◌then◌else◌,
}
use stock_market_trading_sim.Common.Keys.{id_key}
use stock_market_trading_sim.Common.Maps.{lookup, insert}
use stock_market_trading_sim.Double.{Double}
use stock_market_trading_sim.Sql.{◌>>=◌}
use stock_market_trading_sim.Sql.Database.{RowId, Environment}
use stock_market_trading_sim.Sql.Market.{Session, Books, Market}
use stock_market_trading_sim.Sql.Trading.{
  replaced, Round, stopped, transacted, fixing_round, continuous_round,
}

-- A loop's state: the session, and the entries of the two lists from the indices on.
pub record Sweep (P : Type 0) : Type 0 where
  pub session : Session P
  pub buys : List RowId
  pub sells : List RowId

-- The loop over the two lists; without fuel for a round the result is `none`.
unfoldable pub sweep_orders :
    {P : Type 0}
    → (RowId → RowId → Session P → Option (Round P))
    → ℕ
    → Session P
    → List RowId
    → List RowId
    → Option (Sweep P)
sweep_orders round fuel session [] sells =
    some record { session = session; buys = []; sells = sells }
sweep_orders round fuel session (buy ∷ buys) [] =
    some record { session = session; buys = buy ∷ buys; sells = [] }
sweep_orders round zero session (buy ∷ buys) (sell ∷ sells) = none
sweep_orders round (suc fuel) session (buy ∷ buys) (sell ∷ sells) =
    round buy sell session >>= (λ result. elim result [
      | stopped ↦ some record { session = session; buys = buy ∷ buys; sells = sell ∷ sells }
      | transacted changed buyer_left seller_left ↦
          sweep_orders round fuel changed (replaced buyer_left buys) (replaced seller_left sells)
    ])

abbrev pub no_orders : List RowId → Bool
no_orders [] = true
no_orders (order ∷ orders) = false

-- One action: nothing is done where a side has no entry or no order. There are at most as many
-- rounds as orders.
unfoldable pub trade_action :
    {P : Type 0}
    → (RowId → RowId → Session P → Option (Round P))
    → RowId
    → Market P
    → Option (Market P)
trade_action round action market = elim (lookup action market.buy_orders) [
  | none ↦ some market
  | some buys ↦ elim (lookup action market.sell_orders) [
    | none ↦ some market
    | some sells ↦
        if no_orders buys || no_orders sells
        then some market
        else sweep_orders round (length buys + length sells) market.session buys sells >>= (λ left.
          some record {
            session = left.session;
            buy_orders = insert action left.buys market.buy_orders;
            sell_orders = insert action left.sells market.sell_orders;
          })
  ]
]

-- The loop over the entries of `Buy_Orders`, whose values it changes under their keys.
unfoldable pub trade_actions :
    {P : Type 0}
    → (RowId → RowId → RowId → Session P → Option (Round P))
    → List RowId
    → Market P
    → Option (Market P)
trade_actions round [] market = some market
trade_actions round (action ∷ actions) market =
    trade_action (round action) action market >>= (λ traded. trade_actions round actions traded)

abbrev pub keys_of : Books → List RowId
keys_of books = map (λ entry. entry.0) books

module _ {P : Type 0} ⦃double : Double P⦄ (environment : Environment P) where
  unfoldable pub process_fixing : Market P → Option (Market P)
  process_fixing market =
      trade_actions (fixing_round environment) (keys_of market.buy_orders) market

  unfoldable pub process_continuous_trading : RowId → Market P → Option (Market P)
  process_continuous_trading action market =
      trade_action (continuous_round environment action) action market
