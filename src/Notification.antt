-- ===== src/Notification.antt =====
-- Src_Simulation/include/notification.hpp: the events that the engine publishes.
pub mod Bus
use stock_market_trading_sim.Types.{OrderId, ClientId, Symbol, Trade, RejectReason}

pub data Event (P : Type 0) : Type 0 where
  trade_event : Trade P → Event P
  order_rejected_event : OrderId → ClientId → RejectReason → Event P
  order_accepted_event : OrderId → ClientId → Symbol → Event P
  order_queued_event : OrderId → ClientId → Symbol → Event P
  order_expired_event : OrderId → ClientId → Symbol → Event P
