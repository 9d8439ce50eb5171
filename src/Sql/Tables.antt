-- ===== src/Sql/Tables.antt =====
-- Src_SQL/client.cpp: the tables that the update of a portfolio does not change.
use stock_market_trading_sim.Common.{
  ◌≡◌, refl, sym, ap, ◌∙◌, eqb, eqb_iff, Bool-cases, inl, inr, some, either, Option-cases,
}
use stock_market_trading_sim.Common.Int.{ℤ, pos, ◌+ℤ◌, ◌-ℤ◌}
use stock_market_trading_sim.Common.Keys.{id_key}
use stock_market_trading_sim.Common.Maps.{Map, lookup, insert, lookup-insert}
use stock_market_trading_sim.Double.{Double}
use stock_market_trading_sim.Sql.Database.{
  RowId, OrderType, PriceRow, Database, Environment, pair_key, select_id,
}
use stock_market_trading_sim.Sql.Client.{
  max_ℤ, zero_price, set_balance, set_quantity, withdraw, deposit, price_exists, add_price,
  add_action, remove_action, is_action_in_portfolio, can_afford, has_shares, update_portfolio,
}

module _ {P : Type 0} where
  -- No update of a portfolio adds or removes an order or a message.
  pub record SameTables (database changed : Database P) : Type 0 where
    pub same_orders : changed.orders ≡ database.orders
    pub same_messages : changed.messages ≡ database.messages
    pub same_clients :
        (client : RowId) → select_id client changed.clients ≡ select_id client database.clients

  abbrev unchanged : (database : Database P) → SameTables database database
  unchanged database = record {
    same_orders = refl;
    same_messages = refl;
    same_clients = λ other. refl;
  }

  module _ ⦃double : Double P⦄ where
    add_price-SameTables :
        (row : PriceRow P) (database : Database P) → SameTables database (add_price row database)
    unfolding add_price
    add_price-SameTables row database =
        either (SameTables database) (price_exists row database.prices) (unchanged database)
          (record { same_orders = refl; same_messages = refl; same_clients = λ other. refl })

    set_quantity-SameTables :
        (change : ℤ → ℤ) (client action : RowId) (database : Database P)
        → SameTables database (set_quantity change client action database)
    set_quantity-SameTables change client action database =
        elim (Option-cases (lookup (client, action) database.client_portfolio)) [
          | inl k ↦
              rw (k, set_quantity)
                (record { same_orders = refl; same_messages = refl; same_clients = λ other. refl })
          | inr (quantity, k) ↦
              rw (k, set_quantity)
                (record { same_orders = refl; same_messages = refl; same_clients = λ other. refl })
        ]

    -- A new balance makes no client.
    existing :
        (client other : RowId) (new old : P) (clients : Map RowId P)
        → lookup client clients ≡ some old
        → select_id other (insert client new clients) ≡ select_id other clients
    unfolding select_id
    existing client other new old clients h =
        rw (lookup-insert client other new clients) (elim (Bool-cases (eqb client other)) [
          | inl k ↦
              let e : lookup other clients ≡ some old =
                ap (λ id. lookup id clients) (sym ((eqb_iff client other).0 k)) ∙ h in
              rw (k, e) refl
          | inr k ↦ rw k refl
        ])

    set_balance-SameTables :
        (change : P → P) (client : RowId) (database : Database P)
        → SameTables database (set_balance change client database)
    set_balance-SameTables change client database =
        elim (Option-cases (lookup client database.clients)) [
          | inl k ↦
              rw (k, set_balance)
                (record { same_orders = refl; same_messages = refl; same_clients = λ other. refl })
          | inr (balance, k) ↦
              rw (k, set_balance)
                (record {
                  same_orders = refl;
                  same_messages = refl;
                  same_clients =
                      λ other. existing client other (change balance) balance database.clients k;
                })
        ]

    pub SameTables-trans :
        (first second third : Database P)
        → SameTables first second
        → SameTables second third
        → SameTables first third
    SameTables-trans first second third a b = record {
      same_orders = b.same_orders ∙ a.same_orders;
      same_messages = b.same_messages ∙ a.same_messages;
      same_clients = λ other. b.same_clients other ∙ a.same_clients other;
    }

    add_action-SameTables :
        (client : RowId) (row : PriceRow P) (quantity : ℤ) (database : Database P)
        → SameTables database (add_action client row quantity database)
    unfolding add_action
    add_action-SameTables client row quantity database =
        SameTables-trans _ _ _
          (either (SameTables database) (is_action_in_portfolio client row.of_action database)
            (set_quantity-SameTables (λ held. held +ℤ quantity) client row.of_action database)
            (record { same_orders = refl; same_messages = refl; same_clients = λ other. refl }))
          (add_price-SameTables row _)

    remove_action-SameTables :
        (client : RowId) (row : PriceRow P) (quantity : ℤ) (database : Database P)
        → SameTables database (remove_action client row quantity database)
    unfolding remove_action
    remove_action-SameTables client row quantity database =
        SameTables-trans _ _ _
          (either (SameTables database) (is_action_in_portfolio client row.of_action database)
            (set_quantity-SameTables (λ held. max_ℤ (held -ℤ quantity) (pos 0)) client row.of_action
              database)
            (unchanged database))
          (add_price-SameTables row _)

    withdraw-SameTables :
        (client : RowId) (amount : P) (database : Database P)
        → SameTables database (withdraw client amount database)
    unfolding withdraw
    withdraw-SameTables client amount database = set_balance-SameTables _ client database

    deposit-SameTables :
        (client : RowId) (amount : P) (database : Database P)
        → SameTables database (deposit client amount database)
    unfolding deposit
    deposit-SameTables client amount database =
        either (SameTables database) (double.lt zero_price amount)
          (set_balance-SameTables (λ balance. double.add balance amount) client database)
          (unchanged database)

    pub update_portfolio-SameTables :
        (environment : Environment P) (type : OrderType) (client : RowId) (row : PriceRow P)
        (quantity : ℤ) (database : Database P)
        → SameTables database (update_portfolio environment type client row quantity database)
    unfolding update_portfolio
    update_portfolio-SameTables environment OrderType.buy client row quantity database =
        either (SameTables database)
          (can_afford environment client quantity row.at_price (some row.of_action) database)
          (SameTables-trans _ _ _ (withdraw-SameTables client _ database)
            (add_action-SameTables client row quantity _))
          (unchanged database)
    update_portfolio-SameTables environment OrderType.sell client row quantity database =
        either (SameTables database) (has_shares client row.of_action quantity database)
          (SameTables-trans _ _ _ (deposit-SameTables client _ database)
            (remove_action-SameTables client row quantity _))
          (unchanged database)
