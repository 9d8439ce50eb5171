-- ===== src/Sql/Places.antt =====
-- Src_SQL/market.cpp: the place of a new order in a queue.
use stock_market_trading_sim.Common.{
  suc, length, ◌≡◌, refl, sym, ap, inl, inr, true, List, [], ◌∷◌, ◌++◌, All, Bool-cases,
}
use stock_market_trading_sim.Common.Keys.{id_key}
use stock_market_trading_sim.Double.{Double}
use stock_market_trading_sim.Sql.Database.{RowId, OrderType, Database, Environment}
use stock_market_trading_sim.Sql.Market.{rank, order_priority, insert_order_id}
use stock_market_trading_sim.Sql.Resting.{Resting, Rests}

module _ {P : Type 0} ⦃double : Double P⦄ where
  insert_order_id-apart :
      (type : OrderType) (database : Database P) (own new : RowId) (ids : List RowId)
      → (own ≡ new → ⊥)
      → All (λ other. own ≡ other → ⊥) ids
      → All (λ other. own ≡ other → ⊥) (insert_order_id type database new ids)
  unfolding insert_order_id
  insert_order_id-apart type database own new [] h hs = (h, tt)
  insert_order_id-apart type database own new (first ∷ ids) h (k, ks) =
      elim (Bool-cases (order_priority type (rank database first) (rank database new))) [
        | inl e ↦ rw e (k, insert_order_id-apart type database own new ids h ks)
        | inr e ↦ rw e (h, (k, ks))
      ]

  pub length-insert_order_id :
      (type : OrderType) (database : Database P) (new : RowId) (ids : List RowId)
      → length (insert_order_id type database new ids) ≡ suc (length ids)
  unfolding insert_order_id
  length-insert_order_id type database new [] = refl
  length-insert_order_id type database new (own ∷ ids) =
      elim (Bool-cases (order_priority type (rank database own) (rank database new))) [
        | inl e ↦ rw e (ap suc (length-insert_order_id type database new ids))
        | inr e ↦ rw e refl
      ]

  pub insert_order_id-Rests :
      (environment : Environment P) (type : OrderType) (action : RowId) (database : Database P)
      (new : RowId) (ids : List RowId)
      → Resting environment type action database new
      → All (λ other. new ≡ other → ⊥) ids
      → Rests environment type action database ids
      → Rests environment type action database (insert_order_id type database new ids)
  unfolding insert_order_id
  insert_order_id-Rests environment type action database new [] r hs rs = (r, tt, tt)
  insert_order_id-Rests environment type action database new (first ∷ ids) r (h, hs) (f, fs, rs) =
      elim (Bool-cases (order_priority type (rank database first) (rank database new))) [
        | inl e ↦ rw e (
          f,
          insert_order_id-apart type database first new ids (λ k. h (sym k)) fs,
          insert_order_id-Rests environment type action database new ids r hs rs,
        )
        | inr e ↦ rw e (r, (h, hs), (f, fs, rs))
      ]

  -- The queue with the order behind those that go before it.
  pub record Placed (type : OrderType) (database : Database P) (new : RowId)
      (before after : List RowId) : Type 0 where
    pub ahead : List RowId
    pub behind : List RowId
    pub was : before ≡ ahead ++ behind
    pub now_is : after ≡ ahead ++ new ∷ behind
    pub ahead_first :
        All (λ other. order_priority type (rank database other) (rank database new) ≡ true) ahead

  pub insert_order_id-Placed :
      (type : OrderType) (database : Database P) (new : RowId) (ids : List RowId)
      → Placed type database new ids (insert_order_id type database new ids)
  unfolding insert_order_id
  insert_order_id-Placed type database new [] = record {
    ahead = [];
    behind = [];
    was = refl;
    now_is = refl;
    ahead_first = tt;
  }
  insert_order_id-Placed type database new (first ∷ ids) =
      elim (Bool-cases (order_priority type (rank database first) (rank database new))) [
        | inl e ↦
            let p = insert_order_id-Placed type database new ids in
            rw e (record {
              ahead = first ∷ p.ahead;
              behind = p.behind;
              was = ap (λ l. first ∷ l) p.was;
              now_is = ap (λ l. first ∷ l) p.now_is;
              ahead_first = (e, p.ahead_first);
            })
        | inr e ↦ rw e (record {
          ahead = [];
          behind = first ∷ ids;
          was = refl;
          now_is = refl;
          ahead_first = tt;
        })
      ]
