-- ===== src/Tests/Events.antt =====
-- The event bus and the market data at sample events.
use stock_market_trading_sim.Common.{◌≡◌, refl, ◌≢◌, true, [], ◌∷◌, ◌++◌, arith}
use stock_market_trading_sim.Common.Int.{pos}
use stock_market_trading_sim.Common.Keys.{symbol_key}
use stock_market_trading_sim.Common.Maps.{lookup, get_or}
use stock_market_trading_sim.Double.Cents.{Cents, num, cents_double, Cents-IsOrdered}
use stock_market_trading_sim.Notification.{Event}
use stock_market_trading_sim.Notification.Bus.{
  NotificationBus, Worker, got, Run, started, publishes, works, new_bus, publish, subscribe,
  flush_returns, run_section, worker_step, worker_steps,
}
use stock_market_trading_sim.Notification.Bus.Delivery.{
  flush_returns-delivers, Run-drains, work_left,
}
use stock_market_trading_sim.MarketData.{MarketData, on_event}
use stock_market_trading_sim.MarketData.Candles.{MarketTracked, on_event-MarketTracked}

abbrev sale : Event Cents
sale = Event.trade_event (record {
  buy_order_id = 2;
  sell_order_id = 1;
  buyer = 6;
  seller = 5;
  symbol = "ACME";
  price = num (pos 104);
  quantity = 10;
  timestamp = pos 65;
})

abbrev acceptance : Event Cents
acceptance = Event.order_accepted_event 3 5 "ACME"

-- One subscriber, and two events waiting.
abbrev loaded : NotificationBus Cents
loaded = publish acceptance (publish sale (subscribe new_bus))

subscribed-Run : Run {P = Cents} 1 (subscribe new_bus) [] (subscribe new_bus)
unfolding subscribe
subscribed-Run = started refl refl refl refl

loaded-Run : Run 1 (subscribe new_bus) (sale ∷ acceptance ∷ []) loaded
loaded-Run = publishes acceptance (publishes sale subscribed-Run)

served-Run : Run 1 (subscribe new_bus) (sale ∷ acceptance ∷ []) (worker_steps 6 loaded)
unfolding worker_steps
served-Run = works (works (works (works (works (works loaded-Run)))))

served : flush_returns (worker_steps 6 loaded) ≡ true
unfolding worker_steps worker_step run_section publish subscribe flush_returns
served = refl

flush_returns-delivers_example :
    got 1 (worker_steps 6 loaded).calls ≡ got 1 (subscribe new_bus).calls ++ sale ∷ acceptance ∷ []
flush_returns-delivers_example = flush_returns-delivers served-Run served

still_running : loaded.worker ≢ Worker.ended
unfolding publish subscribe
still_running = λ h. absurd (ground (arith, h))

Run-drains_example :
    (flush_returns (worker_steps (work_left loaded.worker loaded.queue) loaded) ≡ true)
    × (got 1 (worker_steps (work_left loaded.worker loaded.queue) loaded).calls
        ≡ got 1 (subscribe new_bus).calls ++ sale ∷ acceptance ∷ [])
Run-drains_example = Run-drains loaded-Run still_running

abbrev market : MarketData Cents
market = record { bucket_size = 60; state = [] }

market-MarketTracked : MarketTracked market
unfolding MarketTracked get_or lookup
market-MarketTracked = λ s. record { candles_ok = tt; volume_eq = refl; closes = tt }

on_event-MarketTracked_example : MarketTracked (on_event sale market)
on_event-MarketTracked_example =
    on_event-MarketTracked Cents-IsOrdered sale market market-MarketTracked
