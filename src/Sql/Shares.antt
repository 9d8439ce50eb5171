-- ===== src/Sql/Shares.antt =====
-- Src_SQL/market.cpp: the shares that a transaction moves between its clients.
use stock_market_trading_sim.Common.{
  ℕ, ◌<◌, ◌≡◌, refl, subst, sym, ◌∙◌, ap, Bool, true, false, ◌&&◌, some, arith, eqb_iff, value_or,
  either, Bool-cases, inl, inr, if◌then◌else◌,
}
use stock_market_trading_sim.Common.Int.{ℤ, ◌+ℤ◌, ◌-ℤ◌, pos}
use stock_market_trading_sim.Common.Maps.{lookup}
use stock_market_trading_sim.Double.{Double}
use stock_market_trading_sim.Sql.Database.{
  RowId, OrderType, PriceRow, Database, Environment, pair_key, same_pair, same_pair_iff,
}
use stock_market_trading_sim.Sql.Client.{
  withdraw, deposit, can_afford, has_shares, update_portfolio,
}
use stock_market_trading_sim.Sql.Market.{Session}
use stock_market_trading_sim.Sql.Trading.{OrderInfo, execution, exchange}
use stock_market_trading_sim.Sql.Settlement.{
  IsInt, held, add_action-held, remove_action-held, withdraw-held, deposit-held,
}

-- The two updates, one behind the other.
one_side :
    (p b : Bool) (own value n : ℤ)
    → (b ≡ true → own ≡ value)
    → (if p then (if b then own +ℤ n else value) else value)
      ≡ (if p && b then value +ℤ n else value)
one_side false b own value n h = refl
one_side true false own value n h = refl
one_side true true own value n h = ap (λ v. v +ℤ n) (h refl)

by_side :
    (d s p b : Bool) (sellers buyers value n : ℤ)
    → (s ≡ true → sellers ≡ value)
    → (b ≡ true → buyers ≡ value)
    → (if d
        then (if s then sellers -ℤ n else (if p then (if b then buyers +ℤ n else value) else value))
        else (if p then (if b then buyers +ℤ n else value) else value))
      ≡ (if d && s then value -ℤ n else if p && b then value +ℤ n else value)
by_side false s p b sellers buyers value n h k = one_side p b buyers value n k
by_side true true p b sellers buyers value n h k = ap (λ v. v -ℤ n) (h refl)
by_side true false p b sellers buyers value n h k = one_side p b buyers value n k

module _ {P : Type 0} ⦃double : Double P⦄ (environment : Environment P) where
  held-same :
      (client action : RowId) (database later : Database P)
      → later.client_portfolio ≡ database.client_portfolio
      → held client action later ≡ held client action database
  held-same client action database later h =
      ap (λ portfolio. value_or (lookup (client, action) portfolio) (pos 0)) h

  same_held :
      (client action other other_action : RowId) (database : Database P)
      → same_pair (client, action) (other, other_action) ≡ true
      → held client action database ≡ held other other_action database
  same_held client action other other_action database h =
      ap (λ key. value_or (lookup key database.client_portfolio) (pos 0))
        ((same_pair_iff (client, action) (other, other_action)).0 h)

  pub bought-held :
      (client other action' : RowId) (row : PriceRow P) (quantity : ℤ) (database : Database P)
      → row.of_action < 2147483648
      → held other action' (update_portfolio environment OrderType.buy client row quantity database)
        ≡ (if can_afford environment client quantity row.at_price (some row.of_action) database
            then (if same_pair (client, row.of_action) (other, action')
                then held client row.of_action database +ℤ quantity
                else held other action' database)
            else held other action' database)
  unfolding update_portfolio
  bought-held client other action' row quantity database small =
      elim (Bool-cases
        (can_afford environment client quantity row.at_price (some row.of_action) database)) [
          | inr k ↦ rw k refl
          | inl k ↦ rw k (
              let paid =
                withdraw client (double.mul row.at_price (double.of_ℤ quantity)) database in
              let same =
                withdraw-held client (double.mul row.at_price (double.of_ℤ quantity)) database in
              add_action-held client other action' row quantity paid small
              ∙ rw
                  (
                    held-same client row.of_action database paid same,
                    held-same other action' database paid same,
                  )
                  refl)
        ]

  has_shares-same :
      (client action : RowId) (quantity : ℤ) (database later : Database P)
      → later.client_portfolio ≡ database.client_portfolio
      → has_shares client action quantity later ≡ has_shares client action quantity database
  unfolding has_shares
  has_shares-same client action quantity database later h = rw h refl

  pub sold-held :
      (client other action' : RowId) (row : PriceRow P) (quantity : ℤ) (database : Database P)
      → row.of_action < 2147483648
      → IsInt (held client row.of_action database)
      → held other action'
          (update_portfolio environment OrderType.sell client row quantity database)
        ≡ (if has_shares client row.of_action quantity database
            then (if same_pair (client, row.of_action) (other, action')
                then held client row.of_action database -ℤ quantity
                else held other action' database)
            else held other action' database)
  unfolding update_portfolio
  sold-held client other action' row quantity database small int =
      elim (Bool-cases (has_shares client row.of_action quantity database)) [
        | inr k ↦ rw k refl
        | inl k ↦ rw k (
            let paid = deposit client (double.mul row.at_price (double.of_ℤ quantity)) database in
            let same =
              deposit-held client (double.mul row.at_price (double.of_ℤ quantity)) database in
            remove_action-held client other action' row quantity paid small
              (subst IsInt (sym (held-same client row.of_action database paid same)) int)
              (has_shares-same client row.of_action quantity database paid same ∙ k)
            ∙ rw
                (
                  held-same client row.of_action database paid same,
                  held-same other action' database paid same,
                )
                refl)
      ]

  -- Who settles: the buyer if the purchase is afforded, the seller if the shares are there then.
  abbrev pub pays : OrderInfo P → PriceRow P → ℤ → Database P → Bool
  pays buyer row quantity database =
      can_afford environment buyer.info_client quantity row.at_price (some row.of_action) database

  abbrev pub delivers : OrderInfo P → OrderInfo P → PriceRow P → ℤ → Database P → Bool
  delivers buyer seller row quantity database =
      has_shares seller.info_client row.of_action quantity
        (update_portfolio environment OrderType.buy buyer.info_client row quantity database)

  -- The shares that a client holds behind a transaction, of any action.
  abbrev pub settled : OrderInfo P → OrderInfo P → PriceRow P → ℤ → Database P → RowId → RowId → ℤ
  settled buyer seller row quantity database client action =
      if delivers buyer seller row quantity database
        && same_pair (seller.info_client, row.of_action) (client, action)
      then held client action database -ℤ quantity
      else if pays buyer row quantity database
          && same_pair (buyer.info_client, row.of_action) (client, action)
      then held client action database +ℤ quantity
      else held client action database

  -- In a transaction between two different clients, in an action whose id and of a holding of the
  -- seller that are below 2^31 and not negative, the shares come to the buyer exactly if can_afford
  -- accepts the purchase, leave the seller exactly if has_shares then accepts the sale, and nobody
  -- else's shares change.
  pub exchange-settled :
      (action : RowId) (buyer seller : OrderInfo P) (now : ℕ) (quantity : ℤ) (session : Session P)
      (client client_action : RowId)
      → action < 2147483648
      → IsInt (held seller.info_client action session.database)
      → (buyer.info_client ≡ seller.info_client → ⊥)
      → held client client_action
          (exchange environment action buyer seller now quantity session).database
        ≡ settled buyer seller
            (execution environment action buyer seller now session)
            quantity
            session.database
            client
            client_action
  unfolding exchange
  exchange-settled action buyer seller now quantity session client client_action small int apart =
      let row = execution environment action buyer seller now session in
      let bought =
        update_portfolio environment OrderType.buy buyer.info_client row quantity
          session.database in
      let others_apart : same_pair (buyer.info_client, action) (seller.info_client, action)
          ≡ false =
        ground (arith, eqb_iff buyer.info_client seller.info_client, apart) in
      let sellers : held seller.info_client action bought
          ≡ held seller.info_client action session.database =
        bought-held buyer.info_client seller.info_client action row quantity session.database small
        ∙ rw (others_apart) (
            either (λ value. value ≡ held seller.info_client action session.database) _ refl
              refl) in
      sold-held seller.info_client client client_action row quantity bought small
        (subst IsInt (sym sellers) int)
      ∙ rw
          (
            sellers,
            bought-held buyer.info_client client client_action row quantity session.database small,
          )
          (by_side (delivers buyer seller row quantity session.database)
            (same_pair (seller.info_client, action) (client, client_action))
            (pays buyer row quantity session.database)
            (same_pair (buyer.info_client, action) (client, client_action)) _ _
            (held client client_action session.database) quantity
            (same_held seller.info_client action client client_action session.database)
            (same_held buyer.info_client action client client_action session.database))
