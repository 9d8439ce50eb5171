-- ===== src/Sql/Rounds.antt =====
-- Src_SQL/market.cpp: one round of the loops of process_fixing and process_continuous_trading.
use stock_market_trading_sim.Common.{
  ◌≡◌, refl, sym, inl, inr, Bool, true, false, ◌||◌, Option, some, arith, Bool-cases,
}
use stock_market_trading_sim.Common.Int.{ℤ, pos, ltb_ℤ, leb_ℤ}
use stock_market_trading_sim.Common.Keys.{id_key}
use stock_market_trading_sim.Common.Maps.{lookup}
use stock_market_trading_sim.Double.{Double}
use stock_market_trading_sim.Sql.Database.{RowId, OrderType, OrderRow, Database, Environment}
use stock_market_trading_sim.Sql.Market.{Session, get_price}
use stock_market_trading_sim.Sql.Trading.{
  OrderInfo, info_of, get_order_info, min_ℤ, Round, stopped, transacted, clients_missing,
  not_positive, transact, fixing_round, continuous_round,
}
use stock_market_trading_sim.Sql.Supply.{IsSupply, Affords}
use stock_market_trading_sim.Sql.Effects.{Transacted, transact-Transacted}
use stock_market_trading_sim.Sql.Resting.{Resting, get_price-found}

module _ {P : Type 0} ⦃double : Double P⦄ (environment : Environment P) where
  -- Why two orders are not traded: their prices do not cross, or a client does not exist or a
  -- quantity is not positive.
  abbrev pub Uncrossed : Database P → RowId → RowId → Type 0
  Uncrossed database bought sold =
      double.lt (get_price bought database) (get_price sold database) ≡ true

  abbrev pub Blocked : Database P → OrderInfo P → OrderInfo P → Type 0
  Blocked database buyer seller =
      (clients_missing environment buyer seller database || not_positive environment buyer seller)
      ≡ true

  -- A round on two orders ends the loop, with a reason, or makes their transaction.
  pub data RoundResult (action : RowId) (session : Session P) (bought sold : RowId)
      (buyer seller : OrderInfo P) : Option (Round P) → Type 0 where
    uncrossed :
        Uncrossed session.database bought sold
        → RoundResult action session bought sold buyer seller (some stopped)
    blocked :
        Blocked session.database buyer seller
        → RoundResult action session bought sold buyer seller (some stopped)
    traded :
        (changed : Session P) (buyer_left seller_left : Option RowId)
        → ltb_ℤ (pos 0) (min_ℤ buyer.info_quantity seller.info_quantity) ≡ true
        → Transacted environment action buyer seller session changed buyer_left seller_left
        → RoundResult action session bought sold buyer seller
            (some (transacted changed buyer_left seller_left))

  -- What the sweep_orders needs of a round.
  abbrev pub IsRound : RowId → (RowId → RowId → Session P → Option (Round P)) → Type 0
  IsRound action round =
      (bought sold : RowId) (session : Session P)
      → IsSupply environment session
      → Affords environment 5 session
      → (b : Resting environment OrderType.buy action session.database bought)
      → (s : Resting environment OrderType.sell action session.database sold)
      → RoundResult action session bought sold (info_of environment bought b.row)
          (info_of environment sold s.row) (round bought sold session)

  get_order_info-found :
      (id : RowId) (row : OrderRow P) (database : Database P)
      → lookup id database.orders ≡ some row
      → get_order_info environment id database ≡ some (info_of environment id row)
  unfolding get_order_info
  get_order_info-found id row database h = rw (h, get_order_info) refl

  positive :
      (a b : ℤ) → leb_ℤ a (pos 0) || leb_ℤ b (pos 0) ≡ false → ltb_ℤ (pos 0) (min_ℤ a b) ≡ true
  positive a b h = ground (arith, h)

  orb-false : (a b : Bool) → a || b ≡ false → (a ≡ false) × (b ≡ false)
  orb-false false b h = (refl, h)
  orb-false true b h = absurd (ground (arith, h))

  transact-RoundResult :
      (action bought sold : RowId) (session : Session P) (buyer seller : OrderInfo P)
      → IsSupply environment session
      → Affords environment 5 session
      → not_positive environment buyer seller ≡ false
      → RoundResult action session bought sold buyer seller
          (transact environment action buyer seller session)
  transact-RoundResult action bought sold session buyer seller supply room h =
      let quantity = positive buyer.info_quantity seller.info_quantity h in
      let (changed, buyer_left, seller_left, e, result) =
        transact-Transacted environment action buyer seller session quantity supply room in
      rw e (traded changed buyer_left seller_left quantity result)

  pub continuous_round-IsRound :
      (action : RowId) → IsRound action (continuous_round environment action)
  unfolding continuous_round
  continuous_round-IsRound action bought sold session supply room b s =
      let buyer = info_of environment bought b.row in
      let seller = info_of environment sold s.row in
      elim (Bool-cases
        (double.lt (get_price bought session.database) (get_price sold session.database))) [
          | inl low ↦ rw low (uncrossed low)
          | inr high ↦
              rw
                (
                  high,
                  get_order_info-found bought b.row session.database b.found,
                  get_order_info-found sold s.row session.database s.found,
                )
                (elim (Bool-cases (
                  clients_missing environment buyer seller session.database
                  || not_positive environment buyer seller)) [
                    | inl block ↦ rw block (blocked block)
                    | inr free ↦ rw free (
                        transact-RoundResult action bought sold session buyer seller supply room
                          (orb-false _ _ free).1)
                  ])
        ]

  pub fixing_round-IsRound : (action : RowId) → IsRound action (fixing_round environment action)
  unfolding fixing_round
  fixing_round-IsRound action bought sold session supply room b s =
      let buyer = info_of environment bought b.row in
      let seller = info_of environment sold s.row in
      let found = get_order_info-found bought b.row session.database b.found in
      let found' = get_order_info-found sold s.row session.database s.found in
      let price = get_price-found environment bought b.row session.database b.found in
      let price' = get_price-found environment sold s.row session.database s.found in
      rw (found, found')
        (elim (Bool-cases (clients_missing environment buyer seller session.database)) [
          | inl missing ↦ rw missing (blocked (rw missing refl))
          | inr there ↦ rw there (elim (Bool-cases (double.lt buyer.info_price seller.info_price)) [
            | inl low ↦ rw low (uncrossed (rw (price, price') (rw (sym b.exact, sym s.exact) low)))
            | inr high ↦ rw high (elim (Bool-cases (not_positive environment buyer seller)) [
              | inl block ↦ rw block (blocked (rw (there, block) refl))
              | inr free ↦
                  rw free
                    (transact-RoundResult action bought sold session buyer seller supply room free)
            ])
          ])
        ])
