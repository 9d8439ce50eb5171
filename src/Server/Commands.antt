-- ===== src/Server/Commands.antt =====
-- `dispatch_command` and `handle_order_command` of Src_Simulation/src/net/simulation_server.cpp. A
-- response is the case of the text that the source writes, with the values that it writes into it.
use Prim.Native.String.{String}
use stock_market_trading_sim.Common.{
  ℕ, Bool, true, false, not, ◌&&◌, Option, none, some, List, [], ◌∷◌, length, ltb, value_or, ◌⊎◌,
  inl, inr, if◌then◌else◌,
}
use stock_market_trading_sim.Common.Int.{ℤ}
use stock_market_trading_sim.Common.Keys.{◌==◌, symbol_key}
use stock_market_trading_sim.Common.Maps.{Map}
use stock_market_trading_sim.Double.{Double}
use stock_market_trading_sim.Types.{
  OrderId, ClientId, Symbol, Side, OrderKind, OrderRequest, RejectReason, SubmitResult, is_market,
}
use stock_market_trading_sim.OrderBook.Views.{BookLevel}
use stock_market_trading_sim.Registry.{size}
use stock_market_trading_sim.Metrics.{MetricsRegistry}
use stock_market_trading_sim.Portfolio.{Portfolio}
use stock_market_trading_sim.MarketData.{MarketData, market_last_price, market_total_volume, vwap}
use stock_market_trading_sim.Engine.{
  MatchingEngine, Readings, last_price, portfolio_snapshot, symbols,
}
use stock_market_trading_sim.Engine.Submit.{submit_order}
use stock_market_trading_sim.Engine.Release.{
  cancel_order, cancel_order_at, cancel_waiting_order, engine_snapshot,
}
use stock_market_trading_sim.Server.Text.{
  Parsers, parse_kv, kv_value, parse_kind, token_at, named, sized,
}

-- What `MARKET` shows.
pub record Quote (P : Type 0) : Type 0 where
  pub symbol : Symbol
  pub last : P
  pub vwap_price : P
  pub volume : ℕ
  pub bid : Option P
  pub ask : Option P

pub data Response (P : Type 0) : Type 0 where
  -- ERR
  empty_command not_authenticated username_taken unknown_username wrong_password : Response P
  unknown_token unknown_command internal_error not_found : Response P
  invalid_arguments invalid_order_id order_usage invalid_side invalid_quantity : Response P
  invalid_kind : Response P
  order_rejected : OrderId → Option RejectReason → Response P
  -- OK
  registered_as : ClientId → String → Response P
  logged_in : ClientId → String → Response P
  resumed : ClientId → Response P
  bye cancelled : Response P
  order_queued order_resting order_without_liquidity : OrderId → Response P
  order_filled : OrderId → ℕ → ℕ → Response P
  portfolio_of : Portfolio P → Response P
  market_quote : Quote P → Response P
  symbol_list : List Symbol → Response P
  metrics_report : MetricsRegistry → ℕ → Response P

abbrev pub or_else : {A : Type 0} → Option A → Option A → Option A
or_else (some a) o = some a
or_else none o = o

abbrev pub is_stop : OrderKind → Bool
is_stop OrderKind.stop = true
is_stop _ = false

abbrev pub parse_side : String → Option Side
parse_side text =
    if text == "BUY" then some Side.buy else if text == "SELL" then some Side.sell else none

module _ {P : Type 0} ⦃d : Double P⦄ where
  abbrev pub first_price : List (BookLevel P) → Option P
  first_price [] = none
  first_price (level ∷ levels) = some level.price

  -- The optional fields of an order request, from the pairs behind the fixed tokens; a later
  -- assignment takes the place of an earlier one.
  unfoldable pub order_request :
      Parsers P → ClientId → Side → Symbol → ℤ → OrderKind → Map String String → OrderRequest P
  order_request parsers client side symbol quantity kind kv =
      let upper =
        or_else (kv_value parsers.stod kv "TRIGGER_UPPER") (kv_value parsers.stod kv "TRIGGER") in
      let price = value_or (kv_value parsers.stod kv "PRICE") (d.ratio 0 1) in
      record {
        client = client;
        side = side;
        kind = kind;
        symbol = symbol;
        quantity = quantity;
        price = if is_stop kind && d.le price (d.ratio 0 1) then value_or upper price else price;
        trigger_lower = kv_value parsers.stod kv "TRIGGER_LOWER";
        trigger_upper = upper;
        expires_in = kv_value parsers.stoll kv "EXPIRES";
        not_before_in = kv_value parsers.stoll kv "NOT_BEFORE";
      }

  -- The answer to an order, on the result of `submit_order`.
  unfoldable pub order_answer : OrderKind → SubmitResult P → Response P
  order_answer kind r =
      if not r.accepted
      then Response.order_rejected r.order_id r.reject_reason
      else if r.queued
      then Response.order_queued r.order_id
      else if ltb 0 r.filled_quantity
      then Response.order_filled r.order_id r.filled_quantity (length r.trades)
      else if is_market kind
      then Response.order_without_liquidity r.order_id
      else Response.order_resting r.order_id

  abbrev pub answered :
      OrderKind
      → Option (SubmitResult P × MatchingEngine P)
      → Option (Response P × MatchingEngine P)
  answered kind none = none
  answered kind (some (r, e)) = some (order_answer kind r, e)

  -- The checks of the side, the quantity and the kind, in their order.
  unfoldable pub order_of :
      Parsers P
      → ClientId
      → Option Side
      → Option ℤ
      → Option OrderKind
      → Symbol
      → Map String String
      → Response P ⊎ OrderRequest P
  order_of parsers client none quantity kind symbol kv = inl Response.invalid_side
  order_of parsers client (some side) none kind symbol kv = inl Response.invalid_quantity
  order_of parsers client (some side) (some quantity) none symbol kv = inl Response.invalid_kind
  order_of parsers client (some side) (some quantity) (some kind) symbol kv =
      inr (order_request parsers client side symbol quantity kind kv)

  abbrev pub submitted :
      Readings
      → Response P ⊎ OrderRequest P
      → MatchingEngine P
      → Option (Response P × MatchingEngine P)
  submitted clock (inl answer) e = some (answer, e)
  submitted clock (inr r) e = answered r.kind (submit_order clock r e)

  -- `none` is an exception, here and in `dispatch_command`.
  unfoldable pub handle_order_command :
      Parsers P
      → Readings
      → ClientId
      → List String
      → MatchingEngine P
      → Option (Response P × MatchingEngine P)
  handle_order_command parsers clock client (name ∷ side ∷ symbol ∷ quantity ∷ kind ∷ pairs) e =
      submitted clock
        (order_of parsers client (parse_side side) (parsers.stoll quantity) (parse_kind kind) symbol
          (parse_kv pairs []))
        e
  handle_order_command parsers clock client tokens e = some (Response.order_usage, e)

  abbrev pub outcome : Bool × MatchingEngine P → Response P × MatchingEngine P
  outcome (true, e) = (Response.cancelled, e)
  outcome (false, e) = (Response.not_found, e)

  -- First the book, then the registry of waiting orders.
  abbrev pub cancel_anywhere : OrderId → Bool × MatchingEngine P → Response P × MatchingEngine P
  cancel_anywhere id (true, e) = (Response.cancelled, e)
  cancel_anywhere id (false, e) = outcome (cancel_waiting_order id e)

  unfoldable pub cancel_command :
      Option OrderId → Symbol → MatchingEngine P → Response P × MatchingEngine P
  cancel_command none symbol e = (Response.invalid_arguments, e)
  cancel_command (some id) symbol e = cancel_anywhere id (cancel_order symbol id e)

  unfoldable pub cancel_waiting_command :
      Option OrderId → MatchingEngine P → Response P × MatchingEngine P
  cancel_waiting_command none e = (Response.invalid_order_id, e)
  cancel_waiting_command (some id) e = outcome (cancel_waiting_order id e)

  -- The side is read before the price, and any side but BUY is SELL.
  unfoldable pub cancel_book_command :
      Option OrderId → Symbol → String → Option P → MatchingEngine P → Response P × MatchingEngine P
  cancel_book_command none symbol side price e = (Response.invalid_arguments, e)
  cancel_book_command (some id) symbol side none e = (Response.invalid_arguments, e)
  cancel_book_command (some id) symbol side (some price) e =
      outcome (cancel_order_at symbol (if side == "BUY" then Side.buy else Side.sell) price id e)

  unfoldable pub quote : Symbol → MarketData P → MatchingEngine P → Quote P
  quote symbol market e =
      let snap = engine_snapshot symbol 1 e in
      let traded = market_last_price symbol market in
      record {
        symbol = symbol;
        last = if d.le traded (d.ratio 0 1) then last_price symbol e else traded;
        vwap_price = vwap symbol market;
        volume = market_total_volume symbol market;
        bid = first_price snap.bids;
        ask = first_price snap.asks;
      }

  unfoldable pub dispatch_command :
      Parsers P
      → Readings
      → ClientId
      → List String
      → MarketData P
      → MatchingEngine P
      → Option (Response P × MatchingEngine P)
  dispatch_command parsers clock client tokens market e =
      if named tokens "ORDER"
      then handle_order_command parsers clock client tokens e
      else if sized tokens "CANCEL" 3
      then some (cancel_command (parsers.stoull (token_at tokens 1)) (token_at tokens 2) e)
      else if sized tokens "CANCEL_WAITING" 2
      then some (cancel_waiting_command (parsers.stoull (token_at tokens 1)) e)
      else if sized tokens "CANCEL_BOOK" 5
      then some (
          cancel_book_command (parsers.stoull (token_at tokens 1)) (token_at tokens 2)
            (token_at tokens 3) (parsers.stod (token_at tokens 4)) e)
      else if named tokens "PORTFOLIO"
      then some (Response.portfolio_of (portfolio_snapshot client e), e)
      else if sized tokens "MARKET" 2
      then some (Response.market_quote (quote (token_at tokens 1) market e), e)
      else if named tokens "SYMBOLS"
      then some (Response.symbol_list (symbols e), e)
      else if named tokens "METRICS"
      then some (Response.metrics_report e.metrics (size e.registry), e)
      else some (Response.unknown_command, e)
