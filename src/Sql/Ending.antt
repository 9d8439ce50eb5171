-- ===== src/Sql/Ending.antt =====
-- Src_SQL/market.cpp: a round of the loops, of which each uses up an order, and the loops.
use stock_market_trading_sim.Common.{
  ℕ, zero, suc, ◌+◌, ◌*◌, ◌≤◌, ◌≡◌, refl, sym, ◌∙◌, ap, inl, inr, true, Option, none, some, List,
  [], ◌∷◌, length, All, arith,
}
use stock_market_trading_sim.Common.Int.{ℤ, pos, ltb_ℤ}
use stock_market_trading_sim.Common.Keys.{id_key}
use stock_market_trading_sim.Common.Maps.{lookup}
use stock_market_trading_sim.Double.{Double}
use stock_market_trading_sim.Sql.{◌>>=◌}
use stock_market_trading_sim.Sql.Database.{RowId, OrderType, OrderRow, Database, Environment}
use stock_market_trading_sim.Sql.Market.{Session}
use stock_market_trading_sim.Sql.Trading.{
  OrderInfo, info_of, min_ℤ, replaced, Round, stopped, transacted,
}
use stock_market_trading_sim.Sql.Loops.{Sweep, sweep_orders}
use stock_market_trading_sim.Sql.Supply.{IsSupply, Affords}
use stock_market_trading_sim.Sql.Effects.{Transacted}
use stock_market_trading_sim.Sql.Resting.{Resting, Rests, same_row, Rests-kept, replaced-Rests}
use stock_market_trading_sim.Sql.Rounds.{RoundResult, uncrossed, blocked, traded, IsRound}
use stock_market_trading_sim.Sql.Quantities.{open_quantity-replaced, min_ℤ-le}
use stock_market_trading_sim.Sql.Sweeping.{
  Elsewhere, IsOver, Progress, Progress-none, Progress-trans, buys-apart, sells-apart,
}

module _ {P : Type 0} ⦃double : Double P⦄ (environment : Environment P) (action : RowId) where
  other-kept :
      (type : OrderType) (own id : RowId) (row : OrderRow P) (database : Database P)
      → Resting environment type action database own
      → lookup id database.orders ≡ some row
      → Elsewhere action row
      → own ≡ id
      → ⊥
  other-kept type own id row database r h k e =
      let same =
        same_row environment id row r.row database h
          (ap (λ other. lookup other database.orders) (sym e) ∙ r.found) in
      k (ap OrderRow.action_id same ∙ r.of_action) (ap OrderRow.order_status same ∙ r.still_pending)

  -- A transaction leaves an order of one side at most.
  one_side : (a b : ℤ) → ltb_ℤ (min_ℤ a b) a ≡ true → ltb_ℤ (min_ℤ a b) b ≡ true → ⊥
  one_side a b h k = absurd (ground (arith, h, k))

  fewer :
      (buyer seller : OrderInfo P) (session changed : Session P)
      (buyer_left seller_left : Option RowId) (buys sells : List RowId)
      → Transacted environment action buyer seller session changed buyer_left seller_left
      → length (replaced buyer_left buys) + length (replaced seller_left sells)
        ≤ length buys + length sells + 1
  fewer buyer seller session changed none none buys sells t = omega arith
  fewer buyer seller session changed none (some left) buys sells t = omega arith
  fewer buyer seller session changed (some left) none buys sells t = omega arith
  fewer buyer seller session changed (some left) (some left') buys sells t =
      absurd
        (one_side buyer.info_quantity seller.info_quantity t.buyer_is_left.1 t.seller_is_left.1)

  Transacted-Progress :
      (bought sold : RowId) (buys sells : List RowId) (session changed : Session P)
      (buyer_left seller_left : Option RowId)
      → IsSupply environment session
      → (b : Resting environment OrderType.buy action session.database bought)
      → (s : Resting environment OrderType.sell action session.database sold)
      → All (λ id. bought ≡ id → ⊥) buys
      → All (λ id. sold ≡ id → ⊥) sells
      → Rests environment OrderType.buy action session.database buys
      → Rests environment OrderType.sell action session.database sells
      → ltb_ℤ (pos 0) (min_ℤ b.row.quantity s.row.quantity) ≡ true
      → Transacted environment action
          (info_of environment bought b.row)
          (info_of environment sold s.row)
          session
          changed
          buyer_left
          seller_left
      → Progress environment action session
          (bought ∷ buys)
          (sold ∷ sells)
          changed
          (replaced buyer_left buys)
          (replaced seller_left sells)
  Transacted-Progress bought sold buys sells session changed buyer_left seller_left supply b s ab
        as' bs ss positive t =
      let quantity = min_ℤ b.row.quantity s.row.quantity in
      let sb = buys-apart environment action sold buys session.database s bs in
      let bb = sells-apart environment action bought sells session.database b ss in
      let (bs', b_same) =
        Rests-kept environment OrderType.buy action bought sold buys session changed t.kept ab sb
          bs in
      let (ss', s_same) =
        Rests-kept environment OrderType.sell action bought sold sells session changed t.kept bb as'
          ss in
      let (b_rests, b_place, b_follows) =
        replaced-Rests environment OrderType.buy action bought quantity buys session changed
          buyer_left supply b t.buyer_is_left bs bs' b_same in
      let (s_rests, s_place, s_follows) =
        replaced-Rests environment OrderType.sell action sold quantity sells session changed
          seller_left supply s t.seller_is_left ss ss' s_same in
      let less = fewer _ _ session changed buyer_left seller_left buys sells t in
      let (b_le, s_le) = min_ℤ-le b.row.quantity s.row.quantity in
      record {
        supplied = t.supplied;
        drawn_within = omega (arith, t.drawn_within, less);
        not_more = omega (arith, less);
        buys_rest = b_rests;
        sells_rest = s_rests;
        buys_follow = (b_place, b_follows);
        sells_follow = (s_place, s_follows);
        total_traded = quantity;
        total_ge = ground (arith, positive);
        total_bought =
            open_quantity-replaced environment OrderType.buy action bought bought sold quantity buys
              session changed buyer_left t.kept ab sb b b_le t.buyer_is_left bs;
        total_sold =
            open_quantity-replaced environment OrderType.sell action sold bought sold quantity sells
              session changed seller_left t.kept bb as' s s_le t.seller_is_left ss;
        same_clients = t.same_clients;
        others_kept = λ id row h k.
            t.kept id row (other-kept OrderType.buy bought id row session.database b h k)
              (other-kept OrderType.sell sold id row session.database s h k) h;
      }

  -- A run of the loop that has ended, and what it did.
  abbrev pub Swept : Session P → List RowId → List RowId → Option (Sweep P) → Type 0
  Swept session buys sells result =
      (after : Sweep P) × (result ≡ some after)
      × Progress environment action session buys sells after.session after.buys after.sells
      × IsOver environment action after.session.database after.buys after.sells

  -- The loop from a round on, if it ends from every later state with fewer orders.
  resume :
      (round : RowId → RowId → Session P → Option (Round P)) (fuel : ℕ) (session : Session P)
      (bought sold : RowId) (buys sells : List RowId) (result : Option (Round P))
      → length (bought ∷ buys) + length (sold ∷ sells) ≤ suc fuel
      → IsSupply environment session
      → (b : Resting environment OrderType.buy action session.database bought)
      → (s : Resting environment OrderType.sell action session.database sold)
      → All (λ id. bought ≡ id → ⊥) buys
      → All (λ id. sold ≡ id → ⊥) sells
      → Rests environment OrderType.buy action session.database buys
      → Rests environment OrderType.sell action session.database sells
      → RoundResult environment action session bought sold
          (info_of environment bought b.row)
          (info_of environment sold s.row)
          result
      → ((later : Session P) (buys' sells' : List RowId)
          → length buys' + length sells' ≤ fuel
          → Progress environment action session (bought ∷ buys) (sold ∷ sells) later buys' sells'
          → Swept later buys' sells' (sweep_orders round fuel later buys' sells'))
      → Swept session (bought ∷ buys) (sold ∷ sells) (
          result >>= (λ ended. elim ended [
            | stopped ↦
                some record { session = session; buys = bought ∷ buys; sells = sold ∷ sells }
            | transacted changed buyer_left seller_left ↦
                sweep_orders round fuel changed
                  (replaced buyer_left buys)
                  (replaced seller_left sells)
          ]))
  resume round fuel session bought sold buys sells result h supply b s ab as' bs ss (uncrossed low)
        next =
      (
        _,
        refl,
        Progress-none environment action session (bought ∷ buys) (sold ∷ sells) supply (b, ab, bs)
            (s, as', ss),
        inl low,
      )
  resume round fuel session bought sold buys sells result h supply b s ab as' bs ss (blocked block)
        next =
      (
        _,
        refl,
        Progress-none environment action session (bought ∷ buys) (sold ∷ sells) supply (b, ab, bs)
            (s, as', ss),
        inr (b.row, s.row, b.found, s.found, block),
      )
  resume round fuel session bought sold buys sells result h supply b s ab as' bs ss
        (traded changed buyer_left seller_left positive t) next =
      let progress =
        Transacted-Progress bought sold buys sells session changed buyer_left seller_left supply b s
          ab as' bs ss positive t in
      let (after, e, more, over) =
        next changed (replaced buyer_left buys) (replaced seller_left sells)
          (omega (arith, h, fewer _ _ session changed buyer_left seller_left buys sells t))
          progress in
      (after, e, Progress-trans environment action _ _ _ _ _ _ _ _ _ progress more, over)

  -- With as much fuel as there are orders the loop ends where there is nothing more to trade.
  pub sweep_orders-ends :
      (round : RowId → RowId → Session P → Option (Round P)) (fuel : ℕ) (session : Session P)
      (buys sells : List RowId)
      → IsRound environment action round
      → length buys + length sells ≤ fuel
      → IsSupply environment session
      → Rests environment OrderType.buy action session.database buys
      → Rests environment OrderType.sell action session.database sells
      → Affords environment (5 * (length buys + length sells)) session
      → Swept session buys sells (sweep_orders round fuel session buys sells)
  unfolding sweep_orders
  sweep_orders-ends round fuel session [] sells is_round h supply bs ss room =
      (_, refl, Progress-none environment action session [] sells supply bs ss, tt)
  sweep_orders-ends round fuel session (bought ∷ buys) [] is_round h supply bs ss room =
      (_, refl, Progress-none environment action session (bought ∷ buys) [] supply bs ss, tt)
  sweep_orders-ends round zero session (bought ∷ buys) (sold ∷ sells) is_round h supply bs ss room =
      absurd (omega (arith, h))
  sweep_orders-ends round (suc fuel) session (bought ∷ buys) (sold ∷ sells) is_round h supply
        (b, ab, bs) (s, as', ss) room =
      resume round fuel session bought sold buys sells (round bought sold session) h supply b s ab
        as' bs ss (is_round bought sold session supply (omega (arith, room)) b s)
        (λ later buys' sells' k p.
          sweep_orders-ends round fuel later buys' sells' is_round k p.supplied p.buys_rest
            p.sells_rest (omega (arith, room, p.drawn_within)))
