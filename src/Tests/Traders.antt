-- ===== src/Tests/Traders.antt =====
-- Steps of bots on a small market.
use stock_market_trading_sim.Common.{
  ℕ, suc, ◌+◌, ◌≡◌, refl, true, false, List, [], ◌∷◌, arith, leb, if◌then◌else◌,
}
use stock_market_trading_sim.Common.Int.{pos}
use stock_market_trading_sim.Common.Keys.{symbol_key, id_key}
use stock_market_trading_sim.Common.Maps.{lookup, insert, emplace, get_or}
use stock_market_trading_sim.Double.Cents.{Cents, num, cents_double, lt_cents, le_cents}
use stock_market_trading_sim.MarketData.{MarketData}
use stock_market_trading_sim.Engine.{
  new_engine, register_symbol, ensure_client, grant_initial_holdings,
}
use stock_market_trading_sim.Bots.{Random, IsUniform, Trader, noise_request, noise_step}
use stock_market_trading_sim.Bots.Momentum.{momentum_step}
use stock_market_trading_sim.Bots.MarketMaker.{Quotes, maker_step}
use stock_market_trading_sim.Bots.Steps.{Ends, Reach2, Reach3, bots-Reach}
use stock_market_trading_sim.Bots.Requests.{HasCents, IsAdmissible, noise_request-IsAdmissible}
use stock_market_trading_sim.Bots.Window.{Tracks, Windows, momentum_step-Windows}
use stock_market_trading_sim.Bots.Memory.{OwnQuotes, maker_step-OwnQuotes}
use stock_market_trading_sim.Tests.Samples.{clock}
use stock_market_trading_sim.Tests.Engines.{opened, opened-Reach}

-- A generator that counts the draws.
abbrev counter : Random ℕ Cents
counter = record {
  uniform_int = λ a b g. (if leb (a + g) b then a + g else a, suc g);
  uniform_real = λ a b g. (b, suc g);
  bernoulli = λ p g. (true, suc g);
  discrete = λ weights g. (1, suc g);
}

counter-IsUniform : IsUniform counter
counter-IsUniform a b g h = ground arith

abbrev trader : Trader Cents
trader = record { client = 2; symbols = "ACME" ∷ []; volatilities = [] }

abbrev no_market : MarketData Cents
no_market = record { bucket_size = 1; state = [] }

abbrev no_quotes : Quotes
no_quotes = record { last_quote_symbol = "ACME"; last_buy_order = 0; last_sell_order = 0 }

bots-Reach_example :
    Ends Reach2 (noise_step counter trader clock no_market 0 opened)
    × Ends Reach3 (momentum_step counter trader clock clock no_market [] 0 opened)
    × Ends Reach3 (maker_step counter trader clock clock no_market (num (pos 1)) no_quotes 0 opened)
bots-Reach_example =
    bots-Reach counter trader clock clock no_market [] (num (pos 1)) no_quotes 0 counter-IsUniform
      (omega arith) opened-Reach

cents_above : (x : Cents) → lt_cents (num (pos 1)) x ≡ true → le_cents x (num (pos 0)) ≡ false
cents_above x h = ground arith

Cents-HasCents : HasCents Cents
Cents-HasCents = record { cent_positive = refl; above_cent = cents_above }

noise_request-IsAdmissible_example :
    IsAdmissible trader "ACME" opened (noise_request counter trader "ACME" (num (pos 100)) 0).0
unfolding lookup insert emplace register_symbol grant_initial_holdings ensure_client new_engine
noise_request-IsAdmissible_example =
    noise_request-IsAdmissible Cents-HasCents counter counter-IsUniform trader "ACME"
      (num (pos 100)) 0 opened refl refl

no_samples-Tracks : Tracks [] (λ s. let samples : List Cents = [] in samples)
unfolding get_or lookup
no_samples-Tracks s = refl

momentum_step-Windows_example :
    Ends
      (Windows no_market opened (λ s. []))
      (momentum_step counter trader clock clock no_market [] 0 opened)
momentum_step-Windows_example =
    momentum_step-Windows counter trader clock clock no_market [] (λ s. []) 0 counter-IsUniform
      (omega arith) opened-Reach no_samples-Tracks

maker_step-OwnQuotes_example :
    Ends
      (OwnQuotes opened.next_order_id)
      (maker_step counter trader clock clock no_market (num (pos 1)) no_quotes 0 opened)
maker_step-OwnQuotes_example =
    maker_step-OwnQuotes counter trader clock clock no_market (num (pos 1)) no_quotes 0 opened
      counter-IsUniform (omega arith)
