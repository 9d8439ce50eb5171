-- ===== src/Bots/Momentum.antt =====
-- `MomentumBot` of Src_Simulation/include/bot.hpp and src/bot.cpp.
use stock_market_trading_sim.Common.{
  ℕ, ◌&&◌, Option, none, some, List, [], ◌∷◌, ◌++◌, length, ltb, if◌then◌else◌,
}
use stock_market_trading_sim.Common.Int.{pos}
use stock_market_trading_sim.Common.Keys.{symbol_key}
use stock_market_trading_sim.Common.Maps.{Map, insert, get_or}
use stock_market_trading_sim.Double.{Double}
use stock_market_trading_sim.Types.{Symbol, Side, OrderKind, OrderRequest}
use stock_market_trading_sim.MarketData.{MarketData, max_price}
use stock_market_trading_sim.Engine.{MatchingEngine, Readings}
use stock_market_trading_sim.Engine.Submit.{submit_order}
use stock_market_trading_sim.Bots.{
  Random, Trader, pick_symbol, volatility_for, clamp, cent, moved_by, towards, opposite,
  reference_price, plain_request, engine_of,
}

abbrev pub window_size : ℕ
window_size = 5

abbrev pub tail_of {ℓ} : {A : Type ℓ} → List A → List A
tail_of [] = []
tail_of (x ∷ xs) = xs

-- `push_back`, and `pop_front` when the deque has grown past the window; the oldest sample is first.
unfoldable pub push_sample {ℓ} : {A : Type ℓ} → A → List A → List A
push_sample x history =
    let pushed = history ++ (x ∷ []) in
    if ltb window_size (length pushed) then tail_of pushed else pushed

abbrev pub last_or {ℓ} : {A : Type ℓ} → A → List A → A
last_or x [] = x
last_or x (y ∷ ys) = last_or y ys

abbrev pub Histories : Type 0 → Type 0
Histories P = Map Symbol (List P)

-- What a step leaves: the generator, the histories and the engine.
abbrev pub Stepped : Type 0 → Type 0 → Type 0
Stepped G P = Option (G × Histories P × MatchingEngine P)

module _ {P : Type 0} ⦃d : Double P⦄ where
  -- `history.back() - history.front()`; `none` if there are fewer than two samples or no change.
  unfoldable pub trend : List P → Option Side
  trend [] = none
  trend (x ∷ []) = none
  trend (x ∷ y ∷ history) =
      let change = d.sub (last_or y history) x in
      if d.le change (d.ratio 0 1) && d.le (d.ratio 0 1) change
      then none
      else if d.lt (d.ratio 0 1) change
      then some Side.buy
      else some Side.sell

  -- The protective stop is submitted behind the market order.
  abbrev pub protected :
      Readings → OrderRequest P → Option (MatchingEngine P) → Option (MatchingEngine P)
  protected clock stop none = none
  protected clock stop (some e) = engine_of (submit_order clock stop e)

module _ {G P : Type 0} ⦃d : Double P⦄ where
  -- The protective stop on the opposite side.
  unfoldable pub stop_request :
      Random G P → Trader P → Symbol → Side → ℕ → P → G → OrderRequest P × G
  stop_request random bot symbol side quantity reference g =
      let scale =
        clamp (d.div (volatility_for bot symbol) (d.ratio 20 1)) (d.ratio 2 1000) (d.ratio 5 100) in
      let (offset, g') =
        random.uniform_real scale
          (max_price (d.mul scale (d.ratio 2 1)) (d.add scale (d.ratio 5 1000))) g in
      (
        record (plain_request bot.client (opposite side) OrderKind.stop symbol quantity
            (max_price cent (moved_by reference (towards (opposite side) offset)))) {
              expires_in = some (pos 120);
            },
        g',
      )

  abbrev pub with_histories : G → Histories P → Option (MatchingEngine P) → Stepped G P
  with_histories g h none = none
  with_histories g h (some e) = some (g, h, e)

  -- The two orders of a tick, if there is a trend.
  unfoldable pub follow :
      Random G P
      → Trader P
      → Readings
      → Readings
      → Symbol
      → P
      → Option Side
      → Histories P
      → G
      → MatchingEngine P
      → Stepped G P
  follow random bot clock later symbol reference none h g e = some (g, h, e)
  follow random bot clock later symbol reference (some side) h g e =
      let (quantity, g1) = random.uniform_int 1 5 g in
      let (stop, g2) = stop_request random bot symbol side quantity reference g1 in
      let market = plain_request bot.client side OrderKind.market symbol quantity (d.ratio 0 1) in
      with_histories g2 h (protected later stop (engine_of (submit_order clock market e)))

  -- `MomentumBot::step`, on the symbol that was picked.
  unfoldable pub momentum_trade :
      Random G P
      → Trader P
      → Readings
      → Readings
      → MarketData P
      → Option Symbol
      → Histories P
      → G
      → MatchingEngine P
      → Stepped G P
  momentum_trade random bot clock later market none h g e = none
  momentum_trade random bot clock later market (some symbol) h g e =
      let reference = reference_price symbol e market in
      let history = push_sample reference (get_or symbol [] h) in
      let followed =
        follow random bot clock later symbol reference (trend history) (insert symbol history h) g
          e in
      if d.le reference (d.ratio 0 1) then some (g, h, e) else followed

  unfoldable pub momentum_step :
      Random G P
      → Trader P
      → Readings
      → Readings
      → MarketData P
      → Histories P
      → G
      → MatchingEngine P
      → Stepped G P
  momentum_step random bot clock later market h g e =
      let (symbol, g') = pick_symbol random bot g in
      momentum_trade random bot clock later market symbol h g' e
