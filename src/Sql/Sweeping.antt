-- ===== src/Sql/Sweeping.antt =====
-- Src_SQL/market.cpp: the loop over the two queues of an action.
use stock_market_trading_sim.Common.{
  ℕ, zero, suc, ◌+◌, ◌*◌, ◌≤◌, ◌≡◌, length, refl, sym, ◌∙◌, ap, ◌⊎◌, some, List, [], ◌∷◌, map, drop,
  All, arith,
}
use stock_market_trading_sim.Common.Int.{ℤ, pos, ◌+ℤ◌, ◌≤ℤ◌, int_laws}
use stock_market_trading_sim.Common.Keys.{id_key}
use stock_market_trading_sim.Common.Maps.{lookup}
use stock_market_trading_sim.Double.{Double}
use stock_market_trading_sim.Sql.Database.{
  RowId, OrderType, OrderStatus, OrderRow, Database, Environment, select_id,
}
use stock_market_trading_sim.Sql.Market.{Session, rank}
use stock_market_trading_sim.Sql.Trading.{info_of}
use stock_market_trading_sim.Sql.Supply.{IsSupply}
use stock_market_trading_sim.Sql.Resting.{Resting, Rests, sides-apart}
use stock_market_trading_sim.Sql.Rounds.{Uncrossed, Blocked}
use stock_market_trading_sim.Sql.Quantities.{open_quantity}

-- An order that rests in no book of the action.
abbrev pub Elsewhere : {P : Type 0} → RowId → OrderRow P → Type 0
Elsewhere action row = row.action_id ≡ action → row.order_status ≡ OrderStatus.pending → ⊥

module _ {P : Type 0} ⦃double : Double P⦄ (environment : Environment P) (action : RowId) where
  -- The loop has ended: a side has no order, or the first two orders are not to be traded.
  abbrev pub IsOver : Database P → List RowId → List RowId → Type 0
  IsOver database [] sells = Unit
  IsOver database (bought ∷ buys) [] = Unit
  IsOver database (bought ∷ buys) (sold ∷ sells) =
      Uncrossed environment database bought sold
      ⊎ ((buyer seller : OrderRow P) × (lookup bought database.orders ≡ some buyer)
          × (lookup sold database.orders ≡ some seller)
          × Blocked environment database (info_of environment bought buyer)
              (info_of environment sold seller))

  -- The orders of one queue before and after: those from some place on, by their ranks.
  abbrev pub Follows : Database P → Database P → List RowId → List RowId → Type 0
  Follows database changed ids left =
      (n : ℕ) × (map (rank changed) left ≡ drop n (map (rank database) ids))

  -- From one state of the loop to a later one: the orders that rest are the old ones from some places
  -- on, but that a leftover stands for the order that it is left of, and as much was bought as sold.
  -- At most five ids are drawn for an order that is gone.
  pub record Progress (session : Session P) (buys sells : List RowId) (later : Session P)
      (buys' sells' : List RowId) : Type 0 where
    pub supplied : IsSupply environment later
    pub drawn_within :
        later.drawn + 5 * (length buys' + length sells')
        ≤ session.drawn + 5 * (length buys + length sells)
    pub not_more : length buys' + length sells' ≤ length buys + length sells
    pub buys_rest : Rests environment OrderType.buy action later.database buys'
    pub sells_rest : Rests environment OrderType.sell action later.database sells'
    pub buys_follow : Follows session.database later.database buys buys'
    pub sells_follow : Follows session.database later.database sells sells'
    pub total_traded : ℤ
    pub total_ge : pos 0 ≤ℤ total_traded
    pub total_bought :
        open_quantity session.database buys ≡ open_quantity later.database buys' +ℤ total_traded
    pub total_sold :
        open_quantity session.database sells ≡ open_quantity later.database sells' +ℤ total_traded
    pub others_kept :
        (id : RowId) (row : OrderRow P)
        → lookup id session.database.orders ≡ some row
        → Elsewhere action row
        → lookup id later.database.orders ≡ some row
    pub same_clients :
        (client : RowId)
        → select_id client later.database.clients ≡ select_id client session.database.clients

  pub Progress-none :
      (session : Session P) (buys sells : List RowId)
      → IsSupply environment session
      → Rests environment OrderType.buy action session.database buys
      → Rests environment OrderType.sell action session.database sells
      → Progress session buys sells session buys sells
  Progress-none session buys sells supply b s = record {
    supplied = supply;
    drawn_within = omega arith;
    not_more = omega arith;
    buys_rest = b;
    sells_rest = s;
    buys_follow = (0, refl);
    sells_follow = (0, refl);
    total_traded = pos 0;
    total_ge = omega arith;
    total_bought = omega int_laws;
    total_sold = omega int_laws;
    others_kept = λ id row h k. h;
    same_clients = λ client. refl;
  }

  drop-nil : {A : Type 0} (m : ℕ) → drop m (let list : List A = [] in list) ≡ []
  drop-nil zero = refl
  drop-nil (suc m) = refl

  drop-drop : {A : Type 0} (m n : ℕ) (list : List A) → drop m (drop n list) ≡ drop (n + m) list
  drop-drop m zero list = ap (λ k. drop k list) (let e : m ≡ 0 + m = omega arith in e)
  drop-drop {A} m (suc n) [] = drop-nil m ∙ sym (drop-nil (suc n + m))
  drop-drop m (suc n) (a ∷ list) =
      drop-drop m n list
      ∙ ap (λ k. drop k (a ∷ list)) (let e : suc (n + m) ≡ suc n + m = omega arith in e)

  Follows-trans :
      (first second third : Database P) (ids ids' ids'' : List RowId)
      → Follows first second ids ids'
      → Follows second third ids' ids''
      → Follows first third ids ids''
  Follows-trans first second third ids ids' ids'' (n, h) (m, k) =
      (n + m, k ∙ ap (λ ranks. drop m ranks) h ∙ drop-drop m n (map (rank first) ids))

  total_step :
      (before middle after n m : ℤ)
      → before ≡ middle +ℤ n
      → middle ≡ after +ℤ m
      → before ≡ after +ℤ (n +ℤ m)
  total_step before middle after n m h k = rw (h, k) (omega int_laws)

  pub Progress-trans :
      (first second third : Session P) (buys sells buys' sells' buys'' sells'' : List RowId)
      → Progress first buys sells second buys' sells'
      → Progress second buys' sells' third buys'' sells''
      → Progress first buys sells third buys'' sells''
  Progress-trans first second third buys sells buys' sells' buys'' sells'' p q = record {
    supplied = q.supplied;
    drawn_within = omega (arith, p.drawn_within, q.drawn_within);
    not_more = omega (arith, p.not_more, q.not_more);
    buys_rest = q.buys_rest;
    sells_rest = q.sells_rest;
    buys_follow = Follows-trans _ _ _ buys buys' buys'' p.buys_follow q.buys_follow;
    sells_follow = Follows-trans _ _ _ sells sells' sells'' p.sells_follow q.sells_follow;
    total_traded = p.total_traded +ℤ q.total_traded;
    total_ge = omega (int_laws, p.total_ge, q.total_ge);
    total_bought = total_step _ _ _ p.total_traded q.total_traded p.total_bought q.total_bought;
    total_sold = total_step _ _ _ p.total_traded q.total_traded p.total_sold q.total_sold;
    others_kept = λ id row h k. q.others_kept id row (p.others_kept id row h k) k;
    same_clients = λ client. q.same_clients client ∙ p.same_clients client;
  }

  -- The orders of one side are not the order of the other side.
  pub buys-apart :
      (sold : RowId) (ids : List RowId) (database : Database P)
      → Resting environment OrderType.sell action database sold
      → Rests environment OrderType.buy action database ids
      → All (λ id. sold ≡ id → ⊥) ids
  buys-apart sold [] database s bs = tt
  buys-apart sold (id ∷ ids) database s (b, _, bs) = (
    λ e. sides-apart environment action action id sold database b s (sym e),
    buys-apart sold ids database s bs,
  )

  pub sells-apart :
      (bought : RowId) (ids : List RowId) (database : Database P)
      → Resting environment OrderType.buy action database bought
      → Rests environment OrderType.sell action database ids
      → All (λ id. bought ≡ id → ⊥) ids
  sells-apart bought [] database b ss = tt
  sells-apart bought (id ∷ ids) database b (s, _, ss) = (
    λ e. sides-apart environment action action bought id database b s e,
    sells-apart bought ids database b ss,
  )
