-- ===== src/Tests/Snapshots.antt =====
-- The values of a small market, and its restoration.
use stock_market_trading_sim.Common.{◌≡◌, refl, []}
use stock_market_trading_sim.Common.Keys.{symbol_key, id_key}
use stock_market_trading_sim.Double.Cents.{Cents, cents_double}
use stock_market_trading_sim.Engine.{new_engine}
use stock_market_trading_sim.Persistence.{saved_values, restore_engine}
use stock_market_trading_sim.Persistence.Restart.{IsRestored, restore_engine-IsRestored}
use stock_market_trading_sim.Tests.Engines.{opened, opened-Reach}

no_clients : (new_engine {P = Cents}).portfolios ≡ []
unfolding new_engine
no_clients = refl

restore_engine-IsRestored_example :
    IsRestored opened new_engine (restore_engine (saved_values opened) new_engine)
restore_engine-IsRestored_example =
    restore_engine-IsRestored opened new_engine opened-Reach no_clients
