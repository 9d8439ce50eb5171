-- ===== src/Sql/Settlement.antt =====
-- Src_SQL/client.cpp: the shares that the two updates of a transaction move.
use stock_market_trading_sim.Common.{
  subst, ◌<◌, ◌≡◌, inl, inr, refl, sym, ◌∙◌, ap, Bool, true, false, ◌&&◌, Option, none, some, arith,
  either, value_or, Bool-cases, Option-cases, if◌then◌else◌,
}
use stock_market_trading_sim.Common.Int.{
  ℤ, pos, negsuc, pos_part, ◌+ℤ◌, ◌-ℤ◌, ◌≤ℤ◌, ltb_ℤ, leb_ℤ, -ℤ_parts, int_laws,
}
use stock_market_trading_sim.Common.Keys.{id_key}
use stock_market_trading_sim.Common.Maps.{lookup, lookup-insert, lookup-emplace}
use stock_market_trading_sim.Double.{Double}
use stock_market_trading_sim.Sql.Database.{
  RowId, PriceRow, Database, pair_key, same_pair, column_int, execute_sql_query_int,
  execute_sql_query_id,
}
use stock_market_trading_sim.Sql.Client.{
  max_ℤ, zero_price, set_balance, set_quantity, withdraw, deposit, price_exists, add_price,
  add_action, remove_action, is_action_in_portfolio, has_shares,
}

-- Numbers that a column of 32 bits keeps.
abbrev pub IsInt : ℤ → Type 0
IsInt value = (pos 0 ≤ℤ value) × (pos_part value < 2147483648)

pub column_int-IsInt : (value : ℤ) → IsInt value → column_int value ≡ value
unfolding column_int
column_int-IsInt (pos n) (h, k) = ground (arith, k)
column_int-IsInt (negsuc n) (h, k) = absurd (omega (arith, h))

-- What may be taken is there, and MAX does nothing.
taken_exactly :
    (old quantity : ℤ)
    → leb_ℤ quantity old ≡ true
    → max_ℤ (old -ℤ quantity) (pos 0) ≡ old -ℤ quantity
taken_exactly old quantity h = ground (arith, -ℤ_parts old quantity, h)

not_enough : (quantity : ℤ) → ltb_ℤ (pos 0) quantity && leb_ℤ quantity (negsuc 0) ≡ true → ⊥
not_enough quantity h = absurd (ground (arith, h))

and_right : (a b : Bool) → a && b ≡ true → b ≡ true
and_right true b h = h
and_right false b h = absurd (ground (arith, h))

module _ {P : Type 0} where
  -- The shares of an action that a client holds.
  abbrev pub held : RowId → RowId → Database P → ℤ
  held client action database = value_or (lookup (client, action) database.client_portfolio) (pos 0)

  in_portfolio :
      (client action : RowId) (database : Database P)
      → action < 2147483648
      → (quantity : ℤ) → lookup (client, action) database.client_portfolio ≡ some quantity
      → is_action_in_portfolio client action database ≡ true
  unfolding is_action_in_portfolio execute_sql_query_id
  in_portfolio client action database small quantity h =
      rw (h, is_action_in_portfolio, column_int-IsInt (pos action) (omega arith, small))
        (ground arith)

  not_in_portfolio :
      (client action : RowId) (database : Database P)
      → lookup (client, action) database.client_portfolio ≡ none
      → is_action_in_portfolio client action database ≡ false
  unfolding is_action_in_portfolio execute_sql_query_id
  not_in_portfolio client action database h = rw (h, is_action_in_portfolio) (ground arith)

  -- A client that has enough shares has a row with them.
  has_shares-found :
      (client action : RowId) (quantity : ℤ) (database : Database P)
      → IsInt (held client action database)
      → has_shares client action quantity database ≡ true
      → (old : ℤ) × (lookup (client, action) database.client_portfolio ≡ some old)
        × (leb_ℤ quantity old ≡ true)
  unfolding has_shares execute_sql_query_int
  has_shares-found client action quantity database int enough =
      let row = lookup (client, action) database.client_portfolio in
      let test =
        λ (o : Option ℤ). (ltb_ℤ (pos 0) quantity && leb_ℤ quantity (execute_sql_query_int o)) in
      elim (Option-cases row) [
        | inl k ↦ absurd (not_enough quantity (ap test (sym k) ∙ enough))
        | inr (old, k) ↦
            let int' : IsInt old = subst (λ (o : Option ℤ). IsInt (value_or o (pos 0))) k int in
            (
              old,
              k,
              and_right _ _ (
                  ap (λ value. ltb_ℤ (pos 0) quantity && leb_ℤ quantity value)
                    (sym (column_int-IsInt old int'))
                  ∙ ap test (sym k)
                  ∙ enough),
            )
      ]

  module _ ⦃double : Double P⦄ where
    same_portfolio-add_price :
        (row : PriceRow P) (database : Database P)
        → (add_price row database).client_portfolio ≡ database.client_portfolio
    unfolding add_price
    same_portfolio-add_price row database =
        either (λ (later : Database P). later.client_portfolio ≡ database.client_portfolio)
          (price_exists row database.prices) refl refl

    set_quantity-held :
        (change : ℤ → ℤ) (client action other action' : RowId) (old : ℤ) (database : Database P)
        → lookup (client, action) database.client_portfolio ≡ some old
        → held other action' (set_quantity change client action database) ≡ (
            if same_pair (client, action) (other, action')
            then change old
            else held other action' database)
    set_quantity-held change client action other action' old database k =
        rw
          (
            k,
            set_quantity,
            lookup-insert (client, action) (other, action') (change old) database.client_portfolio,
          )
          (elim (Bool-cases (same_pair (client, action) (other, action'))) [
            | inl e ↦ rw e refl
            | inr e ↦ rw e refl
          ])

    pub add_action-held :
        (client other action' : RowId) (row : PriceRow P) (quantity : ℤ) (database : Database P)
        → row.of_action < 2147483648
        → held other action' (add_action client row quantity database) ≡ (
            if same_pair (client, row.of_action) (other, action')
            then held client row.of_action database +ℤ quantity
            else held other action' database)
    unfolding add_action
    add_action-held client other action' row quantity database small =
        rw (same_portfolio-add_price row _)
          (elim (Option-cases (lookup (client, row.of_action) database.client_portfolio)) [
            | inl k ↦ rw (not_in_portfolio client row.of_action database k) (
                rw
                  (lookup-emplace (client, row.of_action) (other, action') quantity
                    database.client_portfolio)
                  (elim (Bool-cases (same_pair (client, row.of_action) (other, action'))) [
                    | inl e ↦ rw (e, k) (omega int_laws)
                    | inr e ↦ rw e refl
                  ]))
            | inr (old, k) ↦ rw (in_portfolio client row.of_action database small old k) (
                set_quantity-held (λ value. value +ℤ quantity) client row.of_action other action'
                  old database k
                ∙ rw k refl)
          ])

    pub remove_action-held :
        (client other action' : RowId) (row : PriceRow P) (quantity : ℤ) (database : Database P)
        → row.of_action < 2147483648
        → IsInt (held client row.of_action database)
        → has_shares client row.of_action quantity database ≡ true
        → held other action' (remove_action client row quantity database) ≡ (
            if same_pair (client, row.of_action) (other, action')
            then held client row.of_action database -ℤ quantity
            else held other action' database)
    unfolding remove_action
    remove_action-held client other action' row quantity database small int enough =
        let (old, k, le) = has_shares-found client row.of_action quantity database int enough in
        rw (same_portfolio-add_price row _, in_portfolio client row.of_action database small old k)
          (set_quantity-held (λ value. max_ℤ (value -ℤ quantity) (pos 0)) client row.of_action other
              action' old database k
            ∙ rw (k, taken_exactly old quantity le) refl)

    set_balance-held :
        (change : P → P) (client : RowId) (database : Database P)
        → (set_balance change client database).client_portfolio ≡ database.client_portfolio
    set_balance-held change client database = elim (Option-cases (lookup client database.clients)) [
      | inl k ↦ rw (k, set_balance) refl
      | inr (balance, k) ↦ rw (k, set_balance) refl
    ]

    pub withdraw-held :
        (client : RowId) (amount : P) (database : Database P)
        → (withdraw client amount database).client_portfolio ≡ database.client_portfolio
    unfolding withdraw
    withdraw-held client amount database = set_balance-held _ client database

    pub deposit-held :
        (client : RowId) (amount : P) (database : Database P)
        → (deposit client amount database).client_portfolio ≡ database.client_portfolio
    unfolding deposit
    deposit-held client amount database =
        either (λ (later : Database P). later.client_portfolio ≡ database.client_portfolio)
          (double.lt zero_price amount)
          (set_balance-held (λ balance. double.add balance amount) client database) refl
