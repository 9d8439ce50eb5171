-- ===== src/Bots.antt =====
-- Src_Simulation/include/bot.hpp and src/bot.cpp: the strategies. The generator of random numbers
-- and the distributions of the C++ library are parameters; a step takes the generator and returns
-- it. `none` is an exception, or an empty list of symbols, for which the code has no meaning.
pub mod Momentum
pub mod MarketMaker
pub mod Steps
pub mod Requests
pub mod Window
pub mod Memory
use stock_market_trading_sim.Common.{
  ℕ, zero, suc, ◌+◌, ◌-◌, ◌≤◌, Bool, true, false, not, ◌&&◌, Option, none, some, List, [], ◌∷◌,
  ◌++◌, length, drop, ltb, eqb, arith, if◌then◌else◌,
}
use stock_market_trading_sim.Common.Int.{ℤ, pos, negsuc}
use stock_market_trading_sim.Common.Keys.{symbol_key}
use stock_market_trading_sim.Common.Maps.{Map, insert, get_or}
use stock_market_trading_sim.Double.{Double}
use stock_market_trading_sim.Types.{
  OrderId, ClientId, Symbol, Side, OrderKind, OrderRequest, SubmitResult,
}
use stock_market_trading_sim.MarketData.{MarketData, market_last_price, max_price}
use stock_market_trading_sim.Engine.{MatchingEngine, Readings, last_price}
use stock_market_trading_sim.Engine.Submit.{submit_order}
use stock_market_trading_sim.Engine.Release.{cancel_order}

-- `std::mt19937` with the distributions that are drawn from.
pub record Random (G P : Type 0) : Type 0 where
  pub uniform_int : ℕ → ℕ → G → ℕ × G
  pub uniform_real : P → P → G → P × G
  pub bernoulli : P → G → Bool × G
  pub discrete : List ℕ → G → ℕ × G

-- What the C++ standard says of a uniform integer: it lies between the two bounds.
abbrev pub IsUniform : {G P : Type 0} → Random G P → Type 0
IsUniform {G} random =
    (a b : ℕ) (g : G)
    → a ≤ b
    → (a ≤ (random.uniform_int a b g).0) × ((random.uniform_int a b g).0 ≤ b)

-- What the bots share: who trades, in what, and how volatile it is.
pub record Trader (P : Type 0) : Type 0 where
  pub client : ClientId
  pub symbols : List Symbol
  pub volatilities : Map Symbol P

abbrev pub nth_symbol : ℕ → List Symbol → Option Symbol
nth_symbol n [] = none
nth_symbol zero (s ∷ symbols) = some s
nth_symbol (suc n) (s ∷ symbols) = nth_symbol n symbols

abbrev pub opposite : Side → Side
opposite Side.buy = Side.sell
opposite Side.sell = Side.buy

module _ {P : Type 0} ⦃d : Double P⦄ where
  unfoldable pub volatility_for : Trader P → Symbol → P
  volatility_for bot symbol = get_or symbol (d.ratio 20 100) bot.volatilities

  -- `std::clamp`
  abbrev pub clamp : P → P → P → P
  clamp x low high = if d.lt x low then low else if d.lt high x then high else x

  abbrev pub cent : P
  cent = d.ratio 1 100

  -- `reference * (1.0 + offset)` and `reference * (1.0 + direction * offset)`
  abbrev pub moved_by : P → P → P
  moved_by reference offset = d.mul reference (d.add (d.ratio 1 1) offset)

  abbrev pub below : P → P
  below offset = d.mul (d.of_ℤ (negsuc 0)) offset

  abbrev pub above : P → P
  above offset = d.mul (d.ratio 1 1) offset

  -- `direction * offset`, where the direction of a sell is -1.
  abbrev pub towards : Side → P → P
  towards Side.sell offset = below offset
  towards Side.buy offset = above offset

  -- The engine's last price, or else the market data's.
  unfoldable pub reference_price : Symbol → MatchingEngine P → MarketData P → P
  reference_price symbol e market =
      if d.le (last_price symbol e) (d.ratio 0 1)
      then market_last_price symbol market
      else last_price symbol e

  -- An `OrderRequest` whose optional fields are unset.
  abbrev pub plain_request : ClientId → Side → OrderKind → Symbol → ℕ → P → OrderRequest P
  plain_request client side kind symbol quantity price = record {
    client = client;
    side = side;
    kind = kind;
    symbol = symbol;
    quantity = pos quantity;
    price = price;
    trigger_lower = none;
    trigger_upper = none;
    expires_in = none;
    not_before_in = none;
  }

  -- What a call of `submit_order` leaves, its result being dropped.
  abbrev pub engine_of : Option (SubmitResult P × MatchingEngine P) → Option (MatchingEngine P)
  engine_of none = none
  engine_of (some (result, e)) = some e

module _ {G P : Type 0} ⦃d : Double P⦄ where
  unfoldable pub pick_symbol : Random G P → Trader P → G → Option Symbol × G
  pick_symbol random bot g =
      let (n, g') = random.uniform_int 0 (length bot.symbols - 1) g in
      (nth_symbol n bot.symbols, g')

  unfoldable pub noise_limit :
      Random G P → ClientId → Side → Symbol → ℕ → P → P → G → OrderRequest P × G
  noise_limit random client side symbol quantity reference scale g =
      let (offset, g') = random.uniform_real (below scale) scale g in
      (
        plain_request client side OrderKind.limit symbol quantity
            (max_price cent (moved_by reference offset)),
        g',
      )

  unfoldable pub noise_stop :
      Random G P → ClientId → Side → Symbol → ℕ → P → P → G → OrderRequest P × G
  noise_stop random client side symbol quantity reference scale g =
      let (offset, g') = random.uniform_real scale (d.mul scale (d.ratio 3 1)) g in
      (
        plain_request client side OrderKind.stop symbol quantity
            (max_price cent (moved_by reference (towards side offset))),
        g',
      )

  unfoldable pub noise_limit_stop :
      Random G P → ClientId → Side → Symbol → ℕ → P → P → G → OrderRequest P × G
  noise_limit_stop random client side symbol quantity reference scale g =
      let (down, g1) = random.uniform_real scale (d.mul scale (d.ratio 5 2)) g in
      let (up, g2) = random.uniform_real scale (d.mul scale (d.ratio 5 2)) g1 in
      let lower = d.mul reference (d.sub (d.ratio 1 1) down) in
      (
        record (plain_request client side OrderKind.limit_stop symbol quantity reference) {
          trigger_lower = some (max_price cent lower);
          trigger_upper = some (moved_by reference up);
        },
        g2,
      )

  -- The `switch` of `NoiseTraderBot::step`, on the kind that was drawn.
  unfoldable pub noise_kind :
      Random G P → ClientId → Side → Symbol → ℕ → P → P → ℕ → G → OrderRequest P × G
  noise_kind random client side symbol quantity reference scale kind g =
      if eqb kind 0
      then (plain_request client side OrderKind.market symbol quantity (d.ratio 0 1), g)
      else if eqb kind 1
      then noise_limit random client side symbol quantity reference scale g
      else if eqb kind 2
      then noise_stop random client side symbol quantity reference scale g
      else noise_limit_stop random client side symbol quantity reference scale g

  -- A quarter of the orders carry an expiry.
  unfoldable pub with_expiry : Random G P → OrderRequest P → G → OrderRequest P × G
  with_expiry random request g =
      let (has_expiry, g1) = random.bernoulli (d.ratio 25 100) g in
      let (seconds, g2) = random.uniform_int 5 60 g1 in
      if has_expiry then (record request { expires_in = some (pos seconds) }, g2) else (request, g1)

  -- The request of a tick of `NoiseTraderBot`, from the symbol and the reference price on.
  unfoldable pub noise_request : Random G P → Trader P → Symbol → P → G → OrderRequest P × G
  noise_request random bot symbol reference g =
      let scale =
        clamp (d.div (volatility_for bot symbol) (d.ratio 20 1)) (d.ratio 2 1000)
          (d.ratio 10 100) in
      let (buys, g1) = random.bernoulli (d.ratio 50 100) g in
      let (quantity, g2) = random.uniform_int 1 10 g1 in
      let (kind, g3) = random.discrete (45 ∷ 35 ∷ 10 ∷ 10 ∷ []) g2 in
      let side : Side = if buys then Side.buy else Side.sell in
      let (request, g4) =
        noise_kind random bot.client side symbol quantity reference scale kind g3 in
      with_expiry random request g4

  abbrev pub with_random : G → Option (MatchingEngine P) → Option (G × MatchingEngine P)
  with_random g none = none
  with_random g (some e) = some (g, e)

  -- `NoiseTraderBot::step`, on the symbol that was picked.
  unfoldable pub noise_trade :
      Random G P
      → Trader P
      → Readings
      → MarketData P
      → Option Symbol
      → G
      → MatchingEngine P
      → Option (G × MatchingEngine P)
  noise_trade random bot clock market none g e = none
  noise_trade random bot clock market (some symbol) g e =
      let reference = reference_price symbol e market in
      let (request, g') = noise_request random bot symbol reference g in
      let traded = with_random g' (engine_of (submit_order clock request e)) in
      if d.le reference (d.ratio 0 1) then some (g, e) else traded

  unfoldable pub noise_step :
      Random G P
      → Trader P
      → Readings
      → MarketData P
      → G
      → MatchingEngine P
      → Option (G × MatchingEngine P)
  noise_step random bot clock market g e =
      let (symbol, g') = pick_symbol random bot g in noise_trade random bot clock market symbol g' e
