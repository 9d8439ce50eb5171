-- ===== src/Tests/Latencies.antt =====
-- The latency histogram at sample durations.
use stock_market_trading_sim.Common.{◌≡◌, refl, [], ◌∷◌}
use stock_market_trading_sim.Metrics.{place, record_latency, reset_histogram}
use stock_market_trading_sim.Metrics.Latency.{IsCounted}

-- A duration goes into the first bucket whose bound is above it.
recorded : (record_latency 70 reset_histogram).buckets ≡ 0 ∷ 0 ∷ 1 ∷ 0 ∷ 0 ∷ 0 ∷ 0 ∷ []
unfolding record_latency reset_histogram place
recorded = refl

reset-IsCounted : IsCounted reset_histogram
unfolding IsCounted reset_histogram
reset-IsCounted = refl
