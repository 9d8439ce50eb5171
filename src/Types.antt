-- ===== src/Types.antt =====
-- Src_Simulation/include/types.hpp: the value types of the engine. A client id is only compared for
-- equality; a time point counts the ticks of the steady clock, ten to the ninth to the second.
-- Quantities of orders and trades are naturals, since `submit_order` refuses a request whose
-- quantity is not positive before it builds an order.
use stock_market_trading_sim.Common.{ℕ, Bool, true, false, ◌&&◌, Option, String, List}
use stock_market_trading_sim.Common.Int.{ℤ}
use stock_market_trading_sim.Double.{Double}

abbrev pub OrderId : Type 0
OrderId = ℕ

abbrev pub ClientId : Type 0
ClientId = ℕ

abbrev pub Symbol : Type 0
Symbol = String

abbrev pub TimePoint : Type 0
TimePoint = ℤ

pub data Side : Type 0 where
  buy sell : Side

pub data OrderKind : Type 0 where
  market limit stop limit_stop : OrderKind

abbrev pub is_market : OrderKind → Bool
is_market OrderKind.market = true
is_market _ = false

pub record Order (P : Type 0) : Type 0 where
  pub id : OrderId
  pub client : ClientId
  pub side : Side
  pub kind : OrderKind
  pub symbol : Symbol
  pub quantity : ℕ
  pub price : P
  pub release_lower : P
  pub release_upper : P
  pub submitted_at : TimePoint
  pub not_before : Option TimePoint
  pub expires_at : Option TimePoint

pub record OrderRequest (P : Type 0) : Type 0 where
  pub client : ClientId
  pub side : Side
  pub kind : OrderKind
  pub symbol : Symbol
  pub quantity : ℤ
  pub price : P
  pub trigger_lower : Option P
  pub trigger_upper : Option P
  pub expires_in : Option ℤ
  pub not_before_in : Option ℤ

pub record Trade (P : Type 0) : Type 0 where
  pub buy_order_id : OrderId
  pub sell_order_id : OrderId
  pub buyer : ClientId
  pub seller : ClientId
  pub symbol : Symbol
  pub quantity : ℕ
  pub price : P
  pub timestamp : TimePoint

-- `reject_reason`; `none` is the empty string.
pub data RejectReason : Type 0 where
  quantity_not_positive price_required unknown_symbol : RejectReason
  insufficient_cash insufficient_holdings : RejectReason

pub record SubmitResult (P : Type 0) : Type 0 where
  pub accepted : Bool
  pub queued : Bool
  pub reject_reason : Option RejectReason
  pub order_id : OrderId
  pub filled_quantity : ℕ
  pub trades : List (Trade P)

module _ {P : Type 0} ⦃d : Double P⦄ where
  -- `reference_price >= release_lower && reference_price <= release_upper`
  unfoldable pub release_band_contains : Order P → P → Bool
  release_band_contains o reference =
      d.le o.release_lower reference && d.le reference o.release_upper
