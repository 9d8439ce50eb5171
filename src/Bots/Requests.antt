-- ===== src/Bots/Requests.antt =====
-- The requests of `NoiseTraderBot` (Src_Simulation/src/bot.cpp) at the checks of `submit_order`.
use stock_market_trading_sim.Common.{
  ℕ, ◌≤◌, ◌≡◌, ◌⊎◌, inl, inr, refl, true, false, none, some, arith, either, eqb,
}
use stock_market_trading_sim.Common.Int.{pos}
use stock_market_trading_sim.Double.{Double}
use stock_market_trading_sim.Types.{ClientId, Symbol, Side, OrderKind, OrderRequest, is_market}
use stock_market_trading_sim.MarketData.{max_price}
use stock_market_trading_sim.Engine.{MatchingEngine, symbol_exists}
use stock_market_trading_sim.Engine.Submit.{refusal, lacking}
use stock_market_trading_sim.Bots.{
  Random, IsUniform, Trader, cent, plain_request, noise_limit, noise_stop, noise_limit_stop,
  noise_kind, with_expiry, noise_request,
}

-- What of comparisons keeps a price of at least a cent positive.
pub record HasCents (P : Type 0) ⦃d : Double P⦄ : Type 0 where
  pub cent_positive : d.le cent (d.ratio 0 1) ≡ false
  pub above_cent : (x : P) → d.lt cent x ≡ true → d.le x (d.ratio 0 1) ≡ false

module _ {P : Type 0} ⦃d : Double P⦄ where
  -- A request of a client for a quantity within bounds, with a price where one is needed.
  pub record IsFor (client : ClientId) (symbol : Symbol) (r : OrderRequest P) : Type 0 where
    pub client_eq : r.client ≡ client
    pub symbol_eq : r.symbol ≡ symbol
    pub units : ℕ
    pub quantity_eq : r.quantity ≡ pos units
    pub least : 1 ≤ units
    pub most : units ≤ 10
    pub priced : (is_market r.kind ≡ true) ⊎ (d.le r.price (d.ratio 0 1) ≡ false)

  IsFor-refusal :
      {client : ClientId} {symbol : Symbol} {r : OrderRequest P} (e : MatchingEngine P)
      → IsFor client symbol r
      → symbol_exists symbol e ≡ true
      → (refusal r e ≡ none) ⊎ (refusal r e ≡ some (lacking r.side))
  unfolding refusal
  IsFor-refusal {r} e w k = elim w.priced [
    | inl m ↦ ground (arith, w.quantity_eq, w.symbol_eq, w.least, m, k)
    | inr m ↦ ground (arith, w.quantity_eq, w.symbol_eq, w.least, m, k)
  ]

  max_price-positive : HasCents P → (x : P) → d.le (max_price cent x) (d.ratio 0 1) ≡ false
  max_price-positive h x = ground (arith, h.cent_positive, h.above_cent x)

  plain_request-IsFor :
      (client : ClientId) (side : Side) (kind : OrderKind) (symbol : Symbol) (n : ℕ) (price : P)
      → (1 ≤ n) × (n ≤ 10)
      → (is_market kind ≡ true) ⊎ (d.le price (d.ratio 0 1) ≡ false)
      → IsFor client symbol (plain_request client side kind symbol n price)
  plain_request-IsFor client side kind symbol n price (l, m) p = record {
    client_eq = refl;
    symbol_eq = refl;
    units = n;
    quantity_eq = refl;
    least = l;
    most = m;
    priced = p;
  }

  limited-IsFor :
      HasCents P
      → (client : ClientId) (side : Side) (kind : OrderKind) (symbol : Symbol) (n : ℕ) (x : P)
      → (1 ≤ n) × (n ≤ 10)
      → IsFor client symbol (plain_request client side kind symbol n (max_price cent x))
  limited-IsFor cents client side kind symbol n x b =
      plain_request-IsFor client side kind symbol n _ b (inr (max_price-positive cents x))

  -- What the engine says of the request of a noise trader.
  abbrev pub IsAdmissible : Trader P → Symbol → MatchingEngine P → OrderRequest P → Type 0
  IsAdmissible bot symbol e r =
      IsFor bot.client symbol r × ((refusal r e ≡ none) ⊎ (refusal r e ≡ some (lacking r.side)))

module _ {G P : Type 0} ⦃d : Double P⦄ where
  noise_kind-IsFor :
      (cents : HasCents P) (random : Random G P) (client : ClientId) (side : Side) (symbol : Symbol)
      (n : ℕ) (reference scale : P) (kind : ℕ) (g : G)
      → (1 ≤ n) × (n ≤ 10)
      → d.le reference (d.ratio 0 1) ≡ false
      → IsFor client symbol (noise_kind random client side symbol n reference scale kind g).0
  unfolding noise_kind noise_limit noise_stop noise_limit_stop
  noise_kind-IsFor cents random client side symbol n reference scale kind g b p =
      let For : OrderRequest P × G → Type 0 = λ r. IsFor client symbol r.0 in
      either For (eqb kind 0)
        (plain_request-IsFor client side OrderKind.market symbol n _ b (inl refl))
        (either For (eqb kind 1) (limited-IsFor cents client side OrderKind.limit symbol n _ b) (
          either For (eqb kind 2) (limited-IsFor cents client side OrderKind.stop symbol n _ b)
            (record {
              client_eq = refl;
              symbol_eq = refl;
              units = n;
              quantity_eq = refl;
              least = b.0;
              most = b.1;
              priced = inr p;
            })))

  with_expiry-IsFor :
      (random : Random G P) {client : ClientId} {symbol : Symbol} (r : OrderRequest P) (g : G)
      → IsFor client symbol r
      → IsFor client symbol (with_expiry random r g).0
  unfolding with_expiry
  with_expiry-IsFor random {client} {symbol} r g w =
      let For : OrderRequest P × G → Type 0 = λ r. IsFor client symbol r.0 in
      either For (random.bernoulli (d.ratio 25 100) g).0
        (record {
          client_eq = w.client_eq;
          symbol_eq = w.symbol_eq;
          units = w.units;
          quantity_eq = w.quantity_eq;
          least = w.least;
          most = w.most;
          priced = w.priced;
        })
        w

  -- If uniform integers lie between their bounds, what is above a cent is positive, the reference price is positive and the symbol is registered, a noise trader's request is in its own name, for one to ten units of the symbol, and the engine refuses it for nothing but a lack of cash or holdings.
  pub noise_request-IsAdmissible :
      HasCents P
      → (random : Random G P) → IsUniform random
      → (bot : Trader P) (symbol : Symbol) (reference : P) (g : G) (e : MatchingEngine P)
      → d.le reference (d.ratio 0 1) ≡ false
      → symbol_exists symbol e ≡ true
      → IsAdmissible bot symbol e (noise_request random bot symbol reference g).0
  unfolding noise_request
  noise_request-IsAdmissible cents random uniform bot symbol reference g e p k =
      let w = with_expiry-IsFor random _ _ (
        noise_kind-IsFor cents random bot.client _ symbol _ reference _ _ _
          (uniform 1 10 _ (omega arith)) p) in
      (w, IsFor-refusal e w k)
