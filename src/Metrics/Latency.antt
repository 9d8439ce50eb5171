-- ===== src/Metrics/Latency.antt =====
-- The latency histogram (Src_Simulation/include/metrics.hpp).
use stock_market_trading_sim.Common.{
  ℕ, ◌+◌, ◌%◌, ◌≡◌, refl, List, [], ◌∷◌, Option, none, some, either, sum_by, arith, ltb,
}
use stock_market_trading_sim.Metrics.{
  LatencyHistogram, fetch_add, u64_mod, place, with_bucket, bucket_bounds_us, record_latency,
}

abbrev pub own : ℕ → ℕ
own n = n

-- The counter is the sum of the buckets, as 64-bit words.
unfoldable pub IsCounted : LatencyHistogram → Type 0
IsCounted h = h.count ≡ (sum_by own h.buckets + h.overflow_bucket) % u64_mod

-- The words of the buckets, if there are any, add up to one more than those before.
abbrev OneMore : List ℕ → Option (List ℕ) → Type 0
OneMore bs none = Unit
OneMore bs (some cs) = sum_by own cs % u64_mod ≡ (sum_by own bs + 1) % u64_mod

later_OneMore :
    (n : ℕ) (bs : List ℕ) (o : Option (List ℕ))
    → OneMore bs o
    → OneMore (n ∷ bs) (elim o [ none ↦ none | some ns ↦ some (n ∷ ns) ])
later_OneMore n bs none h = tt
later_OneMore n bs (some cs) h = omega (arith, h)

place-OneMore : (us : ℕ) (bounds bs : List ℕ) → OneMore bs (place us bounds bs)
unfolding place
place-OneMore us [] bs = tt
place-OneMore us (b ∷ bounds) [] = tt
place-OneMore us (b ∷ bounds) (n ∷ bs) =
    either (OneMore (n ∷ bs)) (ltb us b) (omega arith)
      (later_OneMore n bs (place us bounds bs) (place-OneMore us bounds bs))

with_bucket-IsCounted :
    (h : LatencyHistogram) (o : Option (List ℕ)) (c : ℕ)
    → c ≡ (sum_by own h.buckets + h.overflow_bucket) % u64_mod
    → h.count ≡ fetch_add c 1
    → OneMore h.buckets o
    → IsCounted (with_bucket h o)
unfolding IsCounted
with_bucket-IsCounted h none c k e m = omega (arith, k, e)
with_bucket-IsCounted h (some bs) c k e m = omega (arith, k, e, m)

-- Recording a duration keeps that the counter is the sum of the buckets and the overflow bucket, modulo 2^64.
pub record_latency-IsCounted :
    (us : ℕ) (h : LatencyHistogram) → IsCounted h → IsCounted (record_latency us h)
unfolding IsCounted record_latency
record_latency-IsCounted us h k =
    with_bucket-IsCounted _ (place us bucket_bounds_us h.buckets) h.count k refl
      (place-OneMore us bucket_bounds_us h.buckets)
