-- ===== src/Sql/Priority.antt =====
-- Src_SQL/market.cpp: the order of priority of the queues.
use stock_market_trading_sim.Common.{
  ℕ, zero, suc, ◌≡◌, refl, ap, inl, inr, Bool, true, false, not, List, [], ◌∷◌, map, drop, arith,
  Bool-cases, if◌then◌else◌,
}
use stock_market_trading_sim.Common.Int.{ℤ, ltb_ℤ, same_ℤ}
use stock_market_trading_sim.Double.{Double, IsOrdered}
use stock_market_trading_sim.Sql.Database.{RowId, OrderType, Database}
use stock_market_trading_sim.Sql.Client.{same_price}
use stock_market_trading_sim.Sql.Market.{Rank, rank, order_priority, insert_order_id}

by_time :
    (date date' daily daily' : ℤ)
    → (if not (same_ℤ date date') then ltb_ℤ date date' else ltb_ℤ daily daily') ≡ true
    → (if not (same_ℤ date' date) then ltb_ℤ date' date else ltb_ℤ daily' daily) ≡ false
by_time date date' daily daily' h = ground (arith, h)

-- Two tests that exclude each other, behind one that is the same for both.
exclusive :
    (same x y time time' : Bool)
    → (x ≡ true → y ≡ false)
    → (time ≡ true → time' ≡ false)
    → (if not same then x else time) ≡ true
    → (if not same then y else time') ≡ false
exclusive true x y time time' h k e = k e
exclusive false x y time time' h k e = h e

module _ {P : Type 0} ⦃double : Double P⦄ where
  -- No order of a queue goes before the one in front of it.
  abbrev pub InPriority : OrderType → List (Rank P) → Type 0
  InPriority type [] = Unit
  InPriority type (first ∷ []) = Unit
  InPriority type (first ∷ second ∷ ranks) =
      (order_priority type second first ≡ false) × InPriority type (second ∷ ranks)

  InPriority-tail :
      (type : OrderType) (first : Rank P) (ranks : List (Rank P))
      → InPriority type (first ∷ ranks)
      → InPriority type ranks
  InPriority-tail type first [] h = tt
  InPriority-tail type first (second ∷ ranks) (_, h) = h

  pub InPriority-drop :
      (type : OrderType) (n : ℕ) (ranks : List (Rank P))
      → InPriority type ranks
      → InPriority type (drop n ranks)
  InPriority-drop type zero ranks h = h
  InPriority-drop type (suc n) [] h = tt
  InPriority-drop type (suc n) (first ∷ ranks) h =
      InPriority-drop type n ranks (InPriority-tail type first ranks h)

  asym : (laws : IsOrdered P) (x y : P) → double.lt x y ≡ true → double.lt y x ≡ false
  asym laws x y h = elim (Bool-cases (double.lt y x)) [
    | inl k ↦ absurd (ground (arith, laws.lt_trans x y x h k, laws.lt_irrefl x))
    | inr k ↦ k
  ]

  same_price-sym : (x y : P) → same_price x y ≡ same_price y x
  same_price-sym x y = ground arith

  -- An order that goes before another one does not go behind it.
  pub order_priority-asym :
      (laws : IsOrdered P) (type : OrderType) (one other : Rank P)
      → order_priority type one other ≡ true
      → order_priority type other one ≡ false
  unfolding order_priority
  order_priority-asym laws OrderType.buy (price, date, daily) (price', date', daily') h =
      rw (same_price-sym price' price) (
        exclusive (same_price price price') _ _ _ _ (asym laws price' price)
          (by_time date date' daily daily') h)
  order_priority-asym laws OrderType.sell (price, date, daily) (price', date', daily') h =
      rw (same_price-sym price' price) (
        exclusive (same_price price price') _ _ _ _ (asym laws price price')
          (by_time date date' daily daily') h)

  -- The queue's ranks with a new one at its place.
  unfoldable insert_rank : OrderType → Rank P → List (Rank P) → List (Rank P)
  insert_rank type new [] = new ∷ []
  insert_rank type new (own ∷ ranks) =
      let behind = own ∷ insert_rank type new ranks in
      if order_priority type own new then behind else new ∷ own ∷ ranks

  insert_order_id-rank :
      (type : OrderType) (database : Database P) (new : RowId) (ids : List RowId)
      → map (rank database) (insert_order_id type database new ids)
        ≡ insert_rank type (rank database new) (map (rank database) ids)
  unfolding insert_order_id insert_rank
  insert_order_id-rank type database new [] = refl
  insert_order_id-rank type database new (own ∷ ids) =
      elim (Bool-cases (order_priority type (rank database own) (rank database new))) [
        | inl k ↦
            rw k
              (ap (λ ranks. rank database own ∷ ranks) (insert_order_id-rank type database new ids))
        | inr k ↦ rw k refl
      ]

  insert_rank-behind :
      (laws : IsOrdered P) (type : OrderType) (first new : Rank P) (ranks : List (Rank P))
      → order_priority type first new ≡ true
      → InPriority type (first ∷ ranks)
      → InPriority type (first ∷ insert_rank type new ranks)
  unfolding insert_rank
  insert_rank-behind laws type first new [] h p = (order_priority-asym laws type first new h, tt)
  insert_rank-behind laws type first new (second ∷ ranks) h (q, p) =
      elim (Bool-cases (order_priority type second new)) [
        | inl k ↦ rw k (q, insert_rank-behind laws type second new ranks k p)
        | inr k ↦ rw k (order_priority-asym laws type first new h, (k, p))
      ]

  insert_rank-InPriority :
      (laws : IsOrdered P) (type : OrderType) (new : Rank P) (ranks : List (Rank P))
      → InPriority type ranks
      → InPriority type (insert_rank type new ranks)
  unfolding insert_rank
  insert_rank-InPriority laws type new [] p = tt
  insert_rank-InPriority laws type new (first ∷ ranks) p =
      elim (Bool-cases (order_priority type first new)) [
        | inl k ↦ rw k (insert_rank-behind laws type first new ranks k p)
        | inr k ↦ rw k (k, p)
      ]

  -- An order that is inserted at the place of lower_bound keeps the queue in order of priority.
  pub insert_order_id-InPriority :
      (laws : IsOrdered P) (type : OrderType) (database : Database P) (new : RowId)
      (ids : List RowId)
      → InPriority type (map (rank database) ids)
      → InPriority type (map (rank database) (insert_order_id type database new ids))
  insert_order_id-InPriority laws type database new ids p =
      rw (insert_order_id-rank type database new ids)
        (insert_rank-InPriority laws type (rank database new) (map (rank database) ids) p)
