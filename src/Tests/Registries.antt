-- ===== src/Tests/Registries.antt =====
-- The registry of waiting orders at sample orders.
use stock_market_trading_sim.Common.{◌≡◌, refl, none, some, [], ◌∷◌, is_some, if◌then◌else◌}
use stock_market_trading_sim.Common.Int.{pos}
use stock_market_trading_sim.Common.Keys.{◌==◌, id_key, symbol_key}
use stock_market_trading_sim.Common.Maps.{lookup, get_or, erase}
use stock_market_trading_sim.Double.Cents.{Cents, num, high, cents_double}
use stock_market_trading_sim.Types.{OrderId, Symbol, Side, OrderKind, Order, release_band_contains}
use stock_market_trading_sim.Registry.{
  OrderRegistry, empty_registry, add, cancel, scan_and_release, scan_symbols, scan_bucket, verdict,
}
use stock_market_trading_sim.Registry.Scanning.{ScansRight, scan_and_release-ScansRight}
use stock_market_trading_sim.Registry.Consistency.{
  waiting, IsConsistent, add-IsConsistent, cancel-IsConsistent,
}
use stock_market_trading_sim.Tests.Samples.{order_at}

-- A breakout buy that waits for 110, and one that expires at 50.
abbrev breakout : Order Cents
breakout = record (order_at 21 3 Side.buy OrderKind.stop 5 110) {
  release_lower = num (pos 110);
  release_upper = high;
}

abbrev short_lived : Order Cents
short_lived = record (order_at 22 4 Side.sell OrderKind.limit 6 120) { expires_at = some (pos 50) }

abbrev waiting_orders : OrderRegistry Cents
waiting_orders = record {
  waiting_by_symbol = ("ACME", (21, breakout) ∷ (22, short_lived) ∷ []) ∷ [];
  order_symbol_index = (21, "ACME") ∷ (22, "ACME") ∷ [];
}

-- At time 60 and price 105 the one expires and the other waits.
scan_at_105 :
    let r = scan_and_release (pos 60) (λ s. num (pos 105)) waiting_orders in
    (r.0.expired ≡ short_lived ∷ [])
    × (r.0.released ≡ [])
    × (r.1.order_symbol_index ≡ (21, "ACME") ∷ [])
unfolding scan_and_release scan_symbols scan_bucket verdict release_band_contains erase
scan_at_105 = (refl, refl, refl)

scan_and_release-ScansRight_example :
    ScansRight
      (pos 60)
      (λ s. num (pos 115))
      waiting_orders
      (scan_and_release (pos 60) (λ s. num (pos 115)) waiting_orders)
scan_and_release-ScansRight_example =
    scan_and_release-ScansRight (pos 60) (λ s. num (pos 115)) waiting_orders
      ((refl, (refl, tt)), tt)

empty-IsConsistent : IsConsistent {P = Cents} empty_registry
unfolding empty_registry waiting get_or lookup
empty-IsConsistent = record {
  indexed = λ id s h. let bad : ⊥ = cc h in absurd bad;
  stored = λ id s o h. let bad : ⊥ = cc h in absurd bad;
}

abbrev one_waiting : OrderRegistry Cents
one_waiting = add breakout empty_registry

one_waiting-IsConsistent : IsConsistent one_waiting
unfolding empty_registry lookup
one_waiting-IsConsistent = (add-IsConsistent breakout empty_registry refl empty-IsConsistent).0

cancel-IsConsistent_example :
    ((cancel 21 one_waiting).0 ≡ is_some (lookup 21 one_waiting.order_symbol_index))
    × IsConsistent (cancel 21 one_waiting).1
    × ((s : Symbol) (j : OrderId)
        → waiting s j (cancel 21 one_waiting).1
          ≡ (if 21 == j then none else waiting s j one_waiting))
cancel-IsConsistent_example = cancel-IsConsistent 21 one_waiting one_waiting-IsConsistent
