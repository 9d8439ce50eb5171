-- ===== src/Registry.antt =====
-- Src_Simulation/include/order_registry.hpp and src/order_registry.cpp: the orders that wait for
-- their release band or their start date, by symbol, with an index from order ids to symbols. Each
-- call holds the registry's mutex throughout.
pub mod Scanning
pub mod Consistency
use stock_market_trading_sim.Common.{
  ℕ, Bool, true, false, not, ◌&&◌, ◌||◌, Option, none, some, List, [], ◌∷◌, ◌++◌, length,
  if◌then◌else◌,
}
use stock_market_trading_sim.Common.Int.{leb_ℤ}
use stock_market_trading_sim.Common.Keys.{id_key, symbol_key}
use stock_market_trading_sim.Common.Maps.{Map, lookup, insert, erase, emplace, get_or}
use stock_market_trading_sim.Double.{Double}
use stock_market_trading_sim.Types.{OrderId, Symbol, TimePoint, Order, release_band_contains}

abbrev pub Bucket : Type 0 → Type 0
Bucket P = Map OrderId (Order P)

abbrev pub SymbolIndex : Type 0
SymbolIndex = Map OrderId Symbol

pub record OrderRegistry (P : Type 0) : Type 0 where
  pub waiting_by_symbol : Map Symbol (Bucket P)
  pub order_symbol_index : SymbolIndex

pub record ScanResult (P : Type 0) : Type 0 where
  pub released : List (Order P)
  pub expired : List (Order P)

-- What a scan decides of a waiting order.
pub data Verdict : Type 0 where
  expire release hold : Verdict

-- `now >= *limit`, for a limit that may be absent.
abbrev pub reached : TimePoint → Option TimePoint → Bool
reached now none = false
reached now (some limit) = leb_ℤ limit now

module _ {P : Type 0} where
  unfoldable pub empty_registry : OrderRegistry P
  empty_registry = record { waiting_by_symbol = []; order_symbol_index = [] }

  abbrev pub no_results : ScanResult P
  no_results = record { released = []; expired = [] }

  unfoldable pub add : Order P → OrderRegistry P → OrderRegistry P
  add o r = record {
    waiting_by_symbol =
        insert o.symbol (emplace o.id o (get_or o.symbol [] r.waiting_by_symbol))
          r.waiting_by_symbol;
    order_symbol_index = emplace o.id o.symbol r.order_symbol_index;
  }

  -- The bucket of a symbol without an order, where there is such a bucket.
  abbrev pub erase_from : OrderId → Symbol → Map Symbol (Bucket P) → Map Symbol (Bucket P)
  erase_from id s m = elim (lookup s m) [ none ↦ m | some bucket ↦ insert s (erase id bucket) m ]

  unfoldable pub cancel : OrderId → OrderRegistry P → Bool × OrderRegistry P
  cancel id r = elim (lookup id r.order_symbol_index) [
    | none ↦ (false, r)
    | some s ↦ (
      true,
      record {
        waiting_by_symbol = erase_from id s r.waiting_by_symbol;
        order_symbol_index = erase id r.order_symbol_index;
      },
    )
  ]

  unfoldable pub size : OrderRegistry P → ℕ
  size r = length r.order_symbol_index

  -- The loop of `symbols_with_waiting_orders`.
  unfoldable pub symbols_with_waiting_orders : Map Symbol (Bucket P) → List Symbol
  symbols_with_waiting_orders [] = []
  symbols_with_waiting_orders ((s, []) ∷ m) = symbols_with_waiting_orders m
  symbols_with_waiting_orders ((s, e ∷ bucket) ∷ m) = s ∷ symbols_with_waiting_orders m

  abbrev pub bucket_orders : Bucket P → List (Order P)
  bucket_orders [] = []
  bucket_orders ((id, o) ∷ bucket) = o ∷ bucket_orders bucket

  -- The loops of `all_waiting`.
  unfoldable pub all_waiting : Map Symbol (Bucket P) → List (Order P)
  all_waiting [] = []
  all_waiting ((s, bucket) ∷ m) = bucket_orders bucket ++ all_waiting m

abbrev pub index_after : Verdict → OrderId → SymbolIndex → SymbolIndex
index_after Verdict.hold id index = index
index_after _ id index = erase id index

-- What a scan gives: the results, the index, and what is left of the bucket or of the map.
pub record Scan (P B : Type 0) : Type 0 where
  pub result : ScanResult P
  pub index : SymbolIndex
  pub left : B

module _ {P : Type 0} ⦃d : Double P⦄ where
  -- `!order.not_before.has_value() || now >= *order.not_before`
  abbrev pub started : TimePoint → Order P → Bool
  started now o = elim o.not_before [ none ↦ true | some start ↦ leb_ℤ start now ]

  -- The two tests of the scan, in their order.
  unfoldable pub verdict : TimePoint → P → Order P → Verdict
  verdict now reference o =
      if reached now o.expires_at
      then Verdict.expire
      else if started now o && release_band_contains o reference
      then Verdict.release
      else Verdict.hold

  abbrev pub record_result : Verdict → Order P → ScanResult P → ScanResult P
  record_result Verdict.expire o r = record r { expired = r.expired ++ (o ∷ []) }
  record_result Verdict.release o r = record r { released = r.released ++ (o ∷ []) }
  record_result Verdict.hold o r = r

  abbrev pub bucket_after : Verdict → OrderId × Order P → Bucket P → Bucket P
  bucket_after Verdict.hold e bucket = e ∷ bucket
  bucket_after _ e bucket = bucket

  -- The loop of `scan_bucket_locked`.
  unfoldable pub scan_bucket :
      TimePoint → P → ScanResult P → SymbolIndex → Bucket P → Scan P (Bucket P)
  scan_bucket now reference result index [] = record { result = result; index = index; left = [] }
  scan_bucket now reference result index ((id, o) ∷ bucket) =
      let v = verdict now reference o in
      let more =
        scan_bucket now reference (record_result v o result) (index_after v id index) bucket in
      record { result = more.result; index = more.index; left = bucket_after v (id, o) more.left }

  -- The loop of `scan_and_release` over all symbols.
  unfoldable pub scan_symbols :
      TimePoint
      → (Symbol → P)
      → ScanResult P
      → SymbolIndex
      → Map Symbol (Bucket P)
      → Scan P (Map Symbol (Bucket P))
  scan_symbols now price result index [] = record { result = result; index = index; left = [] }
  scan_symbols now price result index ((s, bucket) ∷ m) =
      let here = scan_bucket now (price s) result index bucket in
      let more = scan_symbols now price here.result here.index m in
      record { result = more.result; index = more.index; left = (s, here.left) ∷ more.left }

  unfoldable pub scan_and_release :
      TimePoint → (Symbol → P) → OrderRegistry P → ScanResult P × OrderRegistry P
  scan_and_release now price r =
      let s = scan_symbols now price no_results r.order_symbol_index r.waiting_by_symbol in
      (s.result, record { waiting_by_symbol = s.left; order_symbol_index = s.index })

  unfoldable pub scan_and_release_symbol :
      Symbol → TimePoint → (Symbol → P) → OrderRegistry P → ScanResult P × OrderRegistry P
  scan_and_release_symbol symbol now price r = elim (lookup symbol r.waiting_by_symbol) [
    | none ↦ (no_results, r)
    | some bucket ↦
        let s = scan_bucket now (price symbol) no_results r.order_symbol_index bucket in
        (
          s.result,
          record {
            waiting_by_symbol = insert symbol s.left r.waiting_by_symbol;
            order_symbol_index = s.index;
          },
        )
  ]
