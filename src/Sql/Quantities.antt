-- ===== src/Sql/Quantities.antt =====
-- Src_SQL/market.cpp: the quantity that a queue still asks for, before and after a transaction.
use stock_market_trading_sim.Common.{
  ◌≡◌, refl, false, Option, none, some, List, [], ◌∷◌, All, arith,
}
use stock_market_trading_sim.Common.Int.{ℤ, pos, ◌+ℤ◌, ◌-ℤ◌, ◌≤ℤ◌, ltb_ℤ, int_laws}
use stock_market_trading_sim.Common.Keys.{id_key}
use stock_market_trading_sim.Common.Maps.{lookup}
use stock_market_trading_sim.Double.{Double}
use stock_market_trading_sim.Sql.Database.{RowId, OrderType, OrderRow, Database, Environment}
use stock_market_trading_sim.Sql.Market.{Session}
use stock_market_trading_sim.Sql.Trading.{info_of, replaced, min_ℤ}
use stock_market_trading_sim.Sql.Effects.{KeepsBut, IsLeft}
use stock_market_trading_sim.Sql.Resting.{Resting, Rests}

abbrev pub quantity_of : {P : Type 0} → Option (OrderRow P) → ℤ
quantity_of none = pos 0
quantity_of (some row) = row.quantity

-- The quantity that the orders of a list ask for.
abbrev pub open_quantity : {P : Type 0} → Database P → List RowId → ℤ
open_quantity database [] = pos 0
open_quantity database (id ∷ ids) =
    quantity_of (lookup id database.orders) +ℤ open_quantity database ids

pub min_ℤ-le : (a b : ℤ) → (min_ℤ a b ≤ℤ a) × (min_ℤ a b ≤ℤ b)
min_ℤ-le a b = (ground arith, ground arith)

taken_all :
    (quantity own rest : ℤ)
    → quantity ≤ℤ own
    → ltb_ℤ quantity own ≡ false
    → own +ℤ rest ≡ rest +ℤ quantity
taken_all quantity own rest h k =
    let same : own ≡ quantity = ground (arith, h, k) in rw same (omega int_laws)

taken_some : (quantity own rest : ℤ) → own +ℤ rest ≡ own -ℤ quantity +ℤ rest +ℤ quantity
taken_some quantity own rest = omega int_laws

module _ {P : Type 0} ⦃double : Double P⦄ (environment : Environment P) where
  open_quantity-kept :
      (type : OrderType) (action bought sold : RowId) (ids : List RowId)
      (session changed : Session P)
      → KeepsBut environment bought sold session changed
      → All (λ id. bought ≡ id → ⊥) ids
      → All (λ id. sold ≡ id → ⊥) ids
      → Rests environment type action session.database ids
      → open_quantity changed.database ids ≡ open_quantity session.database ids
  open_quantity-kept type action bought sold [] session changed kept b s r = refl
  open_quantity-kept type action bought sold (id ∷ ids) session changed kept (b, bs) (s, ss)
        (r, apart, rs) =
      rw
        (
          kept id r.row b s r.found,
          r.found,
          open_quantity-kept type action bought sold ids session changed kept bs ss rs,
        )
        refl

  -- A side is left with what the transaction did not take.
  pub open_quantity-replaced :
      (type : OrderType) (action own bought sold : RowId) (quantity : ℤ) (ids : List RowId)
      (session changed : Session P) (left : Option RowId)
      → KeepsBut environment bought sold session changed
      → All (λ id. bought ≡ id → ⊥) ids
      → All (λ id. sold ≡ id → ⊥) ids
      → (r : Resting environment type action session.database own) → quantity ≤ℤ r.row.quantity
      → IsLeft environment type action (info_of environment own r.row) quantity session changed left
      → Rests environment type action session.database ids
      → open_quantity session.database (own ∷ ids)
        ≡ open_quantity changed.database (replaced left ids) +ℤ quantity
  open_quantity-replaced type action own bought sold quantity ids session changed none kept b s r h
        is_left rs =
      let same = open_quantity-kept type action bought sold ids session changed kept b s rs in
      rw (r.found, same)
        (taken_all quantity r.row.quantity (open_quantity session.database ids) h is_left)
  open_quantity-replaced type action own bought sold quantity ids session changed (some id) kept b s
        r h (n, more, found) rs =
      let same = open_quantity-kept type action bought sold ids session changed kept b s rs in
      rw (r.found, found, same)
        (taken_some quantity r.row.quantity (open_quantity session.database ids))
