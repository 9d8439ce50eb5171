-- ===== src/Registry/Scanning.antt =====
-- What a scan of the waiting orders releases, expires and keeps
-- (Src_Simulation/include/order_registry.hpp).
use stock_market_trading_sim.Common.{
  ℕ, ◌+◌, ◌≡◌, refl, sym, subst, true, false, ◌&&◌, List, [], ◌∷◌, arith, All, All-append, sum_by,
  sum_by-append,
}
use stock_market_trading_sim.Common.Maps.{Map}
use stock_market_trading_sim.Common.Keys.{id_key, symbol_key}
use stock_market_trading_sim.Double.{Double}
use stock_market_trading_sim.Types.{Symbol, TimePoint, Order, release_band_contains}
use stock_market_trading_sim.Registry.{
  Bucket, SymbolIndex, OrderRegistry, ScanResult, Verdict, verdict, record_result, index_after,
  bucket_after, bucket_orders, all_waiting, no_results, scan_bucket, scan_symbols, scan_and_release,
  reached, started,
}

module _ {P : Type 0} ⦃d : Double P⦄ where
  -- Why an order expires, is released or keeps waiting.
  abbrev pub IsExpired : TimePoint → Order P → Type 0
  IsExpired now o = reached now o.expires_at ≡ true

  abbrev pub IsReleased : TimePoint → P → Order P → Type 0
  IsReleased now reference o =
      (reached now o.expires_at ≡ false)
      × (started now o ≡ true)
      × (release_band_contains o reference ≡ true)

  abbrev pub IsHeld : TimePoint → P → Order P → Type 0
  IsHeld now reference o =
      (reached now o.expires_at ≡ false)
      × ((started now o && release_band_contains o reference) ≡ false)

  abbrev Meets : TimePoint → P → Order P → Verdict → Type 0
  Meets now reference o Verdict.expire = IsExpired now o
  Meets now reference o Verdict.release = IsReleased now reference o
  Meets now reference o Verdict.hold = IsHeld now reference o

  verdict-Meets :
      (now : TimePoint) (reference : P) (o : Order P)
      → Meets now reference o (verdict now reference o)
  unfolding verdict
  verdict-Meets now reference o = ground arith

  -- The orders of a bucket carry its symbol.
  abbrev pub IsFiledIn : Symbol → Bucket P → Type 0
  IsFiledIn s bucket = All (λ o. o.symbol ≡ s) (bucket_orders bucket)

  abbrev pub IsFiled : Map Symbol (Bucket P) → Type 0
  IsFiled [] = Unit
  IsFiled ((s, bucket) ∷ m) = IsFiledIn s bucket × IsFiled m

  module _ (now : TimePoint) (price : Symbol → P) where
    pub record IsRight (r : ScanResult P) : Type 0 where
      pub released : All (λ o. IsReleased now (price o.symbol) o) r.released
      pub expired : All (IsExpired now) r.expired

    abbrev pub AllHeld : List (Order P) → Type 0
    AllHeld = All λ o. IsHeld now (price o.symbol) o

    record_result-IsRight :
        (o : Order P) (v : Verdict) (r : ScanResult P)
        → Meets now (price o.symbol) o v
        → IsRight r
        → IsRight (record_result v o r)
    record_result-IsRight o Verdict.expire r h v = record {
      released = v.released;
      expired = All-append _ r.expired (o ∷ []) v.expired (h, tt);
    }
    record_result-IsRight o Verdict.release r h v = record {
      released = All-append _ r.released (o ∷ []) v.released (h, tt);
      expired = v.expired;
    }
    record_result-IsRight o Verdict.hold r h v = v

    bucket_after-held :
        (v : Verdict) (id : ℕ) (o : Order P) (bucket : Bucket P)
        → Meets now (price o.symbol) o v
        → AllHeld (bucket_orders bucket)
        → AllHeld (bucket_orders (bucket_after v (id, o) bucket))
    bucket_after-held Verdict.expire id o bucket h v = v
    bucket_after-held Verdict.release id o bucket h v = v
    bucket_after-held Verdict.hold id o bucket h v = (h, v)

    scan_bucket-IsRight :
        (s : Symbol) (result : ScanResult P) (index : SymbolIndex) (bucket : Bucket P)
        → IsFiledIn s bucket
        → IsRight result
        → let t = scan_bucket now (price s) result index bucket in
          IsRight t.result × AllHeld (bucket_orders t.left)
    unfolding scan_bucket
    scan_bucket-IsRight s result index [] f v = (v, tt)
    scan_bucket-IsRight s result index ((id, o) ∷ bucket) (e, f) v =
        let w = verdict now (price s) o in
        let meets : Meets now (price o.symbol) o w =
          subst (λ x. Meets now (price x) o w) (sym e) (verdict-Meets now (price s) o) in
        let (r, held) =
          scan_bucket-IsRight s (record_result w o result) (index_after w id index) bucket f
            (record_result-IsRight o w result meets v) in
        (r, bucket_after-held w id o _ meets held)

    scan_symbols-IsRight :
        (result : ScanResult P) (index : SymbolIndex) (m : Map Symbol (Bucket P))
        → IsFiled m
        → IsRight result
        → let t = scan_symbols now price result index m in
          IsRight t.result × AllHeld (all_waiting t.left)
    unfolding scan_symbols all_waiting
    scan_symbols-IsRight result index [] f v = (v, tt)
    scan_symbols-IsRight result index ((s, bucket) ∷ m) (f, fs) v =
        let here = scan_bucket now (price s) result index bucket in
        let (r, held) = scan_bucket-IsRight s result index bucket f v in
        let (rs, all_held) = scan_symbols-IsRight here.result here.index m fs r in
        (rs, All-append _ (bucket_orders here.left) _ held all_held)

  -- What is released, expired and kept, measured in any way.
  abbrev pub weight : (Order P → ℕ) → ScanResult P → List (Order P) → ℕ
  weight w r kept = sum_by w r.released + sum_by w r.expired + sum_by w kept

  -- An order counts once, as a result or as one that is kept.
  verdict-weight :
      (w : Order P → ℕ) (v : Verdict) (id : ℕ) (o : Order P) (r : ScanResult P) (bucket : Bucket P)
      → weight w (record_result v o r) [] + sum_by w (bucket_orders (bucket_after v (id, o) bucket))
        ≡ weight w r [] + w o + sum_by w (bucket_orders bucket)
  verdict-weight w Verdict.expire id o r bucket = omega (arith, sum_by-append w r.expired (o ∷ []))
  verdict-weight w Verdict.release id o r bucket =
      omega (arith, sum_by-append w r.released (o ∷ []))
  verdict-weight w Verdict.hold id o r bucket = omega arith

  scan_bucket-weight :
      (w : Order P → ℕ) (now : TimePoint) (reference : P) (result : ScanResult P)
      (index : SymbolIndex) (bucket : Bucket P)
      → let t = scan_bucket now reference result index bucket in
        weight w t.result (bucket_orders t.left) ≡ weight w result (bucket_orders bucket)
  unfolding scan_bucket
  scan_bucket-weight w now reference result index [] = refl
  scan_bucket-weight w now reference result index ((id, o) ∷ bucket) =
      let v = verdict now reference o in
      let more =
        scan_bucket now reference (record_result v o result) (index_after v id index) bucket in
      omega (
        arith,
        verdict-weight w v id o result bucket,
        verdict-weight w v id o result more.left,
        scan_bucket-weight w now reference (record_result v o result) (index_after v id index)
            bucket,
      )

  scan_symbols-weight :
      (w : Order P → ℕ) (now : TimePoint) (price : Symbol → P) (result : ScanResult P)
      (index : SymbolIndex) (m : Map Symbol (Bucket P))
      → let t = scan_symbols now price result index m in
        weight w t.result (all_waiting t.left) ≡ weight w result (all_waiting m)
  unfolding scan_symbols all_waiting
  scan_symbols-weight w now price result index [] = refl
  scan_symbols-weight w now price result index ((s, bucket) ∷ m) =
      let here = scan_bucket now (price s) result index bucket in
      let more = scan_symbols now price here.result here.index m in
      omega (
        arith,
        sum_by-append w (bucket_orders bucket) (all_waiting m),
        sum_by-append w (bucket_orders here.left) (all_waiting more.left),
        scan_bucket-weight w now (price s) result index bucket,
        scan_symbols-weight w now price here.result here.index m,
      )

  -- What a full scan promises of its results and of the registry after it.
  pub record ScansRight (now : TimePoint) (price : Symbol → P) (before : OrderRegistry P)
      (r : ScanResult P × OrderRegistry P) : Type 0 where
    pub released : All (λ o. IsReleased now (price o.symbol) o) r.0.released
    pub expired : All (IsExpired now) r.0.expired
    pub held : All (λ o. IsHeld now (price o.symbol) o) (all_waiting r.1.waiting_by_symbol)
    pub parts :
        (w : Order P → ℕ)
        → weight w r.0 (all_waiting r.1.waiting_by_symbol)
          ≡ sum_by w (all_waiting before.waiting_by_symbol)

  -- A full scan splits the waiting orders in three, so that every measure of orders adds up: it
  -- releases those that have not expired, have started and whose band holds their symbol's price; it
  -- expires those whose expiry has been reached; and it keeps just the others. The condition is that
  -- every order stands in the bucket of its own symbol.
  pub scan_and_release-ScansRight :
      (now : TimePoint) (price : Symbol → P) (r : OrderRegistry P)
      → IsFiled r.waiting_by_symbol
      → ScansRight now price r (scan_and_release now price r)
  unfolding scan_and_release
  scan_and_release-ScansRight now price r f =
      let (right, held) =
        scan_symbols-IsRight now price no_results r.order_symbol_index r.waiting_by_symbol f
          (record { released = tt; expired = tt }) in
      record {
        released = right.released;
        expired = right.expired;
        held = held;
        parts = λ w. omega (
          arith,
          scan_symbols-weight w now price no_results r.order_symbol_index r.waiting_by_symbol,
        );
      }
