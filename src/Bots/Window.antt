-- ===== src/Bots/Window.antt =====
-- The samples of `MomentumBot` (Src_Simulation/include/bot.hpp and src/bot.cpp).
use mathlib.Core.List.{reverse}
use stock_market_trading_sim.Common.{
  ◌<◌, ◌≡◌, refl, ap, ◌∙◌, Option, none, some, List, [], ◌∷◌, length, take, arith, if◌then◌else◌,
  ◌⊎◌, inl, inr, either,
}
use stock_market_trading_sim.Common.Keys.{◌==◌, symbol_key}
use stock_market_trading_sim.Common.Maps.{insert, get_or, lookup-insert}
use stock_market_trading_sim.Double.{Double}
use stock_market_trading_sim.Types.{Symbol, Side}
use stock_market_trading_sim.MarketData.{MarketData}
use stock_market_trading_sim.Engine.{MatchingEngine, Readings}
use stock_market_trading_sim.Engine.Reach.{Reach}
use stock_market_trading_sim.Bots.{Random, IsUniform, Trader, reference_price}
use stock_market_trading_sim.Bots.Steps.{Ends, Reach3, pick_symbol-some, momentum_trade-Reach}
use stock_market_trading_sim.Bots.Momentum.{
  window_size, push_sample, Histories, with_histories, follow, momentum_trade, momentum_step,
}

push_sample-newest {ℓ} :
    {A : Type ℓ} (x : A) (older : List A)
    → push_sample x (reverse (take window_size older)) ≡ reverse (take window_size (x ∷ older))
unfolding push_sample
push_sample-newest x [] = refl
push_sample-newest x (a ∷ []) = refl
push_sample-newest x (a ∷ b ∷ []) = refl
push_sample-newest x (a ∷ b ∷ c ∷ []) = refl
push_sample-newest x (a ∷ b ∷ c ∷ f ∷ []) = refl
push_sample-newest x (a ∷ b ∷ c ∷ f ∷ g ∷ older) = refl

-- The samples of each symbol, the newest first, with one more.
abbrev pub noted : {P : Type 0} → Symbol → P → (Symbol → List P) → Symbol → List P
noted symbol price samples s = if symbol == s then price ∷ samples s else samples s

-- Every history is the window of the samples of its symbol.
abbrev pub Tracks : {P : Type 0} → Histories P → (Symbol → List P) → Type 0
Tracks h samples = (s : Symbol) → get_or s [] h ≡ reverse (take window_size (samples s))

-- What a step leaves, if it returns, has a property.
abbrev pub Keeps : {A : Type 0} → (A → Type 0) → Option A → Type 0
Keeps Q none = Unit
Keeps Q (some a) = Q a

insert-Tracks :
    {P : Type 0} (symbol : Symbol) (price : P) (h : Histories P) (samples : Symbol → List P)
    → Tracks h samples
    → Tracks (insert symbol (push_sample price (get_or symbol [] h)) h) (noted symbol price samples)
unfolding get_or
insert-Tracks symbol price h samples t s = ground (
  arith,
  lookup-insert symbol s (push_sample price (get_or symbol [] h)) h,
  symbol_key.same_iff symbol s,
  ap (push_sample price) (t symbol) ∙ push_sample-newest price (samples symbol),
  t s,
)

both-Ends : {A : Type 0} (R Q : A → Type 0) (o : Option A) → Ends R o → Keeps Q o → Ends Q o
both-Ends R Q none r q = r
both-Ends R Q (some a) r q = q

module _ {G P : Type 0} ⦃d : Double P⦄ where
  -- The histories after a step: as before, or with the reference price of a symbol.
  abbrev pub Windows :
      MarketData P
      → MatchingEngine P
      → (Symbol → List P)
      → G × Histories P × MatchingEngine P
      → Type 0
  Windows market e samples r =
      Tracks r.1 samples
      ⊎ ((s : Symbol) × Tracks r.1 (noted s (reference_price s e market) samples))

  with_histories-Keeps :
      (Q : G × Histories P × MatchingEngine P → Type 0) (g : G) (h : Histories P)
      (o : Option (MatchingEngine P))
      → ((e' : MatchingEngine P) → Q (g, h, e'))
      → Keeps Q (with_histories g h o)
  with_histories-Keeps Q g h none f = tt
  with_histories-Keeps Q g h (some e) f = f e

  follow-Windows :
      (Q : Histories P → Type 0) (random : Random G P) (bot : Trader P) (clock later : Readings)
      (symbol : Symbol) (reference : P) (side : Option Side) (h : Histories P) (g : G)
      (e : MatchingEngine P)
      → Q h
      → Keeps (λ r. Q r.1) (follow random bot clock later symbol reference side h g e)
  unfolding follow
  follow-Windows Q random bot clock later symbol reference none h g e q = q
  follow-Windows Q random bot clock later symbol reference (some side) h g e q =
      with_histories-Keeps (λ r. Q r.1) _ h _ (λ e'. q)

  momentum_trade-Windows :
      (random : Random G P) (bot : Trader P) (clock later : Readings) (market : MarketData P)
      (symbol : Option Symbol) (h : Histories P) (samples : Symbol → List P) (g : G)
      (e : MatchingEngine P)
      → Tracks h samples
      → Keeps (Windows market e samples) (momentum_trade random bot clock later market symbol h g e)
  unfolding momentum_trade
  momentum_trade-Windows random bot clock later market none h samples g e t = tt
  momentum_trade-Windows random bot clock later market (some s) h samples g e t =
      let price = reference_price s e market in
      either (Keeps (Windows market e samples)) (d.le price (d.ratio 0 1)) (inl t) (
        follow-Windows
          (λ h'.
            Tracks h' samples
            ⊎ ((x : Symbol) × Tracks h' (noted x (reference_price x e market) samples)))
          random bot clock later s price _ _ g e (inr (s, insert-Tracks s price h samples t)))

  -- If a bot trades in some symbol, uniform integers lie between their bounds, the engine's state is one that its public calls reach, and every history has the five newest samples of its symbol, the oldest first, then a step of a momentum bot returns and it is so again, with no new sample or with the reference price of one symbol as its newest.
  pub momentum_step-Windows :
      (random : Random G P) (bot : Trader P) (clock later : Readings) (market : MarketData P)
      (h : Histories P) (samples : Symbol → List P) (g : G) {e : MatchingEngine P}
      → IsUniform random
      → 0 < length bot.symbols
      → Reach e
      → Tracks h samples
      → Ends (Windows market e samples) (momentum_step random bot clock later market h g e)
  unfolding momentum_step
  momentum_step-Windows random bot clock later market h samples g {e} uniform some_symbol reached
        t =
      let (s, k) = pick_symbol-some random uniform bot g some_symbol in
      rw (k, momentum_step)
        (both-Ends Reach3 (Windows market e samples) _
          (momentum_trade-Reach random bot clock later market s h _ e reached)
          (momentum_trade-Windows random bot clock later market (some s) h samples _ e t))
