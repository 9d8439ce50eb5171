-- ===== src/Metrics.antt =====
-- Src_Simulation/include/metrics.hpp: the counters and the latency histogram. Each atomic is a
-- 64-bit word, and an addition wraps; `mean_us` and the text reports are not modelled.
pub mod Latency
use stock_market_trading_sim.Common.{
  ℕ, ◌+◌, ◌%◌, ◌^◌, List, [], ◌∷◌, Option, none, some, ltb, if◌then◌else◌,
}

abbrev pub u64_mod : ℕ
u64_mod = 2 ^ 64

-- `fetch_add` on an `std::atomic<std::uint64_t>`.
abbrev pub fetch_add : ℕ → ℕ → ℕ
fetch_add x n = (x + n) % u64_mod

pub record LatencyHistogram : Type 0 where
  pub count : ℕ
  pub sum_us : ℕ
  pub max_us : ℕ
  pub buckets : List ℕ
  pub overflow_bucket : ℕ

-- `kBucketBoundsUs`: the upper bounds, exclusive, in microseconds.
abbrev pub bucket_bounds_us : List ℕ
bucket_bounds_us = 10 ∷ 50 ∷ 100 ∷ 500 ∷ 1000 ∷ 5000 ∷ 50000 ∷ []

-- The loop over the buckets; `none` is the fall through to the overflow bucket.
unfoldable pub place : ℕ → List ℕ → List ℕ → Option (List ℕ)
place us [] buckets = none
place us (bound ∷ bounds) [] = none
place us (bound ∷ bounds) (n ∷ buckets) =
    let later = place us bounds buckets in
    if ltb us bound
    then some (fetch_add n 1 ∷ buckets)
    else elim later [ none ↦ none | some ns ↦ some (n ∷ ns) ]

abbrev pub with_bucket : LatencyHistogram → Option (List ℕ) → LatencyHistogram
with_bucket h none = record h { overflow_bucket = fetch_add h.overflow_bucket 1 }
with_bucket h (some buckets) = record h { buckets = buckets }

-- `LatencyHistogram::record`, for a duration that is not negative.
unfoldable pub record_latency : ℕ → LatencyHistogram → LatencyHistogram
record_latency us h =
    with_bucket
      (record h {
        count = fetch_add h.count 1;
        sum_us = fetch_add h.sum_us us;
        max_us = if ltb h.max_us us then us else h.max_us;
      })
      (place us bucket_bounds_us h.buckets)

unfoldable pub reset_histogram : LatencyHistogram
reset_histogram = record {
  count = 0;
  sum_us = 0;
  max_us = 0;
  buckets = 0 ∷ 0 ∷ 0 ∷ 0 ∷ 0 ∷ 0 ∷ 0 ∷ [];
  overflow_bucket = 0;
}

pub record MetricsRegistry : Type 0 where
  pub orders_submitted : ℕ
  pub orders_accepted : ℕ
  pub orders_rejected : ℕ
  pub orders_queued : ℕ
  pub orders_expired : ℕ
  pub trades_executed : ℕ
  pub volume_traded : ℕ
  pub submit_latency : LatencyHistogram

abbrev pub order_submitted : MetricsRegistry → MetricsRegistry
order_submitted m = record m { orders_submitted = fetch_add m.orders_submitted 1 }

abbrev pub order_accepted : MetricsRegistry → MetricsRegistry
order_accepted m = record m { orders_accepted = fetch_add m.orders_accepted 1 }

abbrev pub order_rejected : MetricsRegistry → MetricsRegistry
order_rejected m = record m { orders_rejected = fetch_add m.orders_rejected 1 }

abbrev pub order_queued : MetricsRegistry → MetricsRegistry
order_queued m = record m { orders_queued = fetch_add m.orders_queued 1 }

abbrev pub order_expired : MetricsRegistry → MetricsRegistry
order_expired m = record m { orders_expired = fetch_add m.orders_expired 1 }

abbrev pub add_trades_executed : ℕ → MetricsRegistry → MetricsRegistry
add_trades_executed n m = record m { trades_executed = fetch_add m.trades_executed n }

abbrev pub add_volume_traded : ℕ → MetricsRegistry → MetricsRegistry
add_volume_traded n m = record m { volume_traded = fetch_add m.volume_traded n }

abbrev pub record_submit_latency : ℕ → MetricsRegistry → MetricsRegistry
record_submit_latency us m = record m { submit_latency = record_latency us m.submit_latency }

unfoldable pub reset : MetricsRegistry
unfolding reset_histogram
reset = record {
  orders_submitted = 0;
  orders_accepted = 0;
  orders_rejected = 0;
  orders_queued = 0;
  orders_expired = 0;
  trades_executed = 0;
  volume_traded = 0;
  submit_latency = reset_histogram;
}
