-- ===== src/Server/Ordering.antt =====
-- What an ORDER command asks of the engine, that every command is answered, and who may cancel (Src_Simulation/src/net/simulation_server.cpp).
use Prim.Native.String.{String}
use stock_market_trading_sim.Common.{
  ◌≡◌, ◌<◌, refl, true, false, length, drop, value_or, Option, none, some, List, [], ◌∷◌, arith,
  inl, inr, ◌⊎◌,
}
use stock_market_trading_sim.Common.Int.{ℤ}
use stock_market_trading_sim.Common.Keys.{symbol_key}
use stock_market_trading_sim.Common.Maps.{Map}
use stock_market_trading_sim.Double.{Double}
use stock_market_trading_sim.Types.{
  ClientId, Side, OrderKind, is_market, OrderRequest, SubmitResult,
}
use stock_market_trading_sim.MarketData.{MarketData}
use stock_market_trading_sim.Engine.{MatchingEngine, Readings}
use stock_market_trading_sim.Engine.Submit.{submit_order}
use stock_market_trading_sim.Engine.Submit.Accounts.{Accounts, Returns, submit_order-Accounts}
use stock_market_trading_sim.Server.Text.{Parsers, parse_kind, parse_kv, kv_value, token_at, named}
use stock_market_trading_sim.Server.Commands.{
  Response, order_request, order_answer, order_of, answered, submitted, is_stop, parse_side,
  handle_order_command, dispatch_command,
}
use stock_market_trading_sim.Server.Served.{dispatch_command_cases}

not_market : (kind : OrderKind) → (kind ≡ OrderKind.market → ⊥) → is_market kind ≡ false
not_market OrderKind.market h = absurd (h refl)
not_market OrderKind.limit h = refl
not_market OrderKind.stop h = refl
not_market OrderKind.limit_stop h = refl

-- The pairs of a command, which stand behind its five tokens.
abbrev pub pairs_of : List String → Map String String
pairs_of tokens = parse_kv (drop 5 tokens) []

module _ {P : Type 0} ⦃d : Double P⦄ where
  -- What the answer says of the engine's result.
  pub record Reports (kind : OrderKind) (result : SubmitResult P) (answer : Response P)
      : Type 0 where
    pub refused :
        result.accepted ≡ false
        → answer ≡ Response.order_rejected result.order_id result.reject_reason
    pub waits :
        result.accepted ≡ true
        → result.queued ≡ true
        → answer ≡ Response.order_queued result.order_id
    pub traded :
        result.accepted ≡ true
        → result.queued ≡ false
        → 0 < result.filled_quantity
        → answer
          ≡ Response.order_filled result.order_id result.filled_quantity (length result.trades)
    pub unmatched :
        result.accepted ≡ true
        → result.queued ≡ false
        → result.filled_quantity ≡ 0
        → kind ≡ OrderKind.market
        → answer ≡ Response.order_without_liquidity result.order_id
    pub rests :
        result.accepted ≡ true
        → result.queued ≡ false
        → result.filled_quantity ≡ 0
        → (kind ≡ OrderKind.market → ⊥)
        → answer ≡ Response.order_resting result.order_id

  order_answer-Reports :
      (kind : OrderKind) (result : SubmitResult P) → Reports kind result (order_answer kind result)
  unfolding order_answer
  order_answer-Reports kind result = record {
    refused = λ h. rw h refl;
    waits = λ h k. rw (h, k) refl;
    traded = λ h k l. ground (arith, h, k, l);
    unmatched = λ h k l m. rw (h, k, l, m) refl;
    rests = λ h k l m. rw (h, k, l, not_market kind m) refl;
  }

  -- Why a command is not an order, and the answer that says so.
  abbrev pub Misspelled : Parsers P → List String → Response P → Type 0
  Misspelled parsers tokens answer =
      ((length tokens < 5) × (answer ≡ Response.order_usage))
      ⊎ ((parse_side (token_at tokens 1) ≡ none) × (answer ≡ Response.invalid_side))
      ⊎ ((parsers.stoll (token_at tokens 3) ≡ none) × (answer ≡ Response.invalid_quantity))
      ⊎ ((parse_kind (token_at tokens 4) ≡ none) × (answer ≡ Response.invalid_kind))

  -- The engine has taken in an order of the client, with the side, symbol, quantity and kind that the tokens spell, and its result is the answer.
  pub record Placed (parsers : Parsers P) (clock : Readings) (client : ClientId)
      (tokens : List String) (e : MatchingEngine P) (answer : Response P) (e' : MatchingEngine P)
      : Type 0 where
    pub request : OrderRequest P
    pub result : SubmitResult P
    pub submitted_eq : submit_order clock request e ≡ some (result, e')
    pub answer_reports : Reports request.kind result answer
    pub client_eq : request.client ≡ client
    pub side_eq : parse_side (token_at tokens 1) ≡ some request.side
    pub symbol_eq : request.symbol ≡ token_at tokens 2
    pub quantity_eq : parsers.stoll (token_at tokens 3) ≡ some request.quantity
    pub kind_eq : parse_kind (token_at tokens 4) ≡ some request.kind
    pub price_eq :
        is_stop request.kind ≡ false
        → request.price ≡ value_or (kv_value parsers.stod (pairs_of tokens) "PRICE") (d.ratio 0 1)
    pub lower_eq : request.trigger_lower ≡ kv_value parsers.stod (pairs_of tokens) "TRIGGER_LOWER"
    pub expires_eq : request.expires_in ≡ kv_value parsers.stoll (pairs_of tokens) "EXPIRES"
    pub not_before_eq :
        request.not_before_in ≡ kv_value parsers.stoll (pairs_of tokens) "NOT_BEFORE"

  -- An answer, with either the engine as it was and what is wrong with the command, or an order placed.
  abbrev pub Handled :
      Parsers P
      → Readings
      → ClientId
      → List String
      → MatchingEngine P
      → Option (Response P × MatchingEngine P)
      → Type 0
  Handled parsers clock client tokens e none = ⊥
  Handled parsers clock client tokens e (some (answer, e')) =
      ((e' ≡ e) × Misspelled parsers tokens answer) ⊎ Placed parsers clock client tokens e answer e'

  answered-Handled :
      (parsers : Parsers P) (clock : Readings) (client : ClientId) (a b s q k : String)
      (pairs : List String) (e : MatchingEngine P) (side : Side) (quantity : ℤ) (kind : OrderKind)
      → parse_side b ≡ some side
      → parsers.stoll q ≡ some quantity
      → parse_kind k ≡ some kind
      → (o : Option (SubmitResult P × MatchingEngine P))
      → submit_order clock (order_request parsers client side s quantity kind (parse_kv pairs [])) e
        ≡ o
      → Returns
          (Accounts (order_request parsers client side s quantity kind (parse_kv pairs [])) e)
          o
      → Handled parsers clock client (a ∷ b ∷ s ∷ q ∷ k ∷ pairs) e (answered kind o)
  unfolding order_request
  answered-Handled parsers clock client a b s q k pairs e side quantity kind hs hq hk none m r = r
  answered-Handled parsers clock client a b s q k pairs e side quantity kind hs hq hk
        (some (res, e')) m r =
      inr (record {
        request = order_request parsers client side s quantity kind (parse_kv pairs []);
        result = res;
        submitted_eq = m;
        answer_reports = order_answer-Reports kind res;
        client_eq = refl;
        side_eq = hs;
        symbol_eq = refl;
        quantity_eq = hq;
        kind_eq = hk;
        price_eq = λ h. rw h refl;
        lower_eq = refl;
        expires_eq = refl;
        not_before_eq = refl;
      })

  order_of-Handled :
      (parsers : Parsers P) (clock : Readings) (client : ClientId) (a b s q k : String)
      (pairs : List String) (e : MatchingEngine P) (os : Option Side) (oq : Option ℤ)
      (ok : Option OrderKind)
      → parse_side b ≡ os
      → parsers.stoll q ≡ oq
      → parse_kind k ≡ ok
      → Handled parsers clock client
          (a ∷ b ∷ s ∷ q ∷ k ∷ pairs)
          e
          (submitted clock (order_of parsers client os oq ok s (parse_kv pairs [])) e)
  unfolding order_of order_request
  order_of-Handled parsers clock client a b s q k pairs e none oq ok hs hq hk =
      inl (refl, inr (inl (hs, refl)))
  order_of-Handled parsers clock client a b s q k pairs e (some side) none ok hs hq hk =
      inl (refl, inr (inr (inl (hq, refl))))
  order_of-Handled parsers clock client a b s q k pairs e (some side) (some n) none hs hq hk =
      inl (refl, inr (inr (inr (hk, refl))))
  order_of-Handled parsers clock client a b s q k pairs e (some side) (some n) (some kind) hs hq
        hk =
      answered-Handled parsers clock client a b s q k pairs e side n kind hs hq hk
        (submit_order clock (order_request parsers client side s n kind (parse_kv pairs [])) e) refl
        (submit_order-Accounts clock
          (order_request parsers client side s n kind (parse_kv pairs [])) e)

  -- An ORDER command is always answered. Either the engine is as it was, and the command has fewer
  -- than five tokens, or its side, its quantity or its kind cannot be read, as the answer says. Or
  -- the engine has taken in one order: of the client of the connection, with the side, symbol,
  -- quantity, kind, lower trigger, expiry and start that the command spells and, but for a stop
  -- order, its price, which is zero where it spells none, and the answer says of the engine's result whether it
  -- was rejected, waits, was filled and by how much, found nothing to trade with, or rests.
  pub handle_order_command-Handled :
      (parsers : Parsers P) (clock : Readings) (client : ClientId) (tokens : List String)
      (e : MatchingEngine P)
      → Handled parsers clock client tokens e (handle_order_command parsers clock client tokens e)
  unfolding handle_order_command
  handle_order_command-Handled parsers clock client [] e = inl (refl, inl (omega arith, refl))
  handle_order_command-Handled parsers clock client (a ∷ []) e = inl (refl, inl (omega arith, refl))
  handle_order_command-Handled parsers clock client (a ∷ b ∷ []) e =
      inl (refl, inl (omega arith, refl))
  handle_order_command-Handled parsers clock client (a ∷ b ∷ s ∷ []) e =
      inl (refl, inl (omega arith, refl))
  handle_order_command-Handled parsers clock client (a ∷ b ∷ s ∷ q ∷ []) e =
      inl (refl, inl (omega arith, refl))
  handle_order_command-Handled parsers clock client (a ∷ b ∷ s ∷ q ∷ k ∷ pairs) e =
      order_of-Handled parsers clock client a b s q k pairs e (parse_side b) (parsers.stoll q)
        (parse_kind k) refl refl refl

  abbrev Answers : Option (Response P × MatchingEngine P) → Type 0
  Answers o = (answer : Response P) × (e' : MatchingEngine P) × (o ≡ some (answer, e'))

  Handled-Answers :
      (parsers : Parsers P) (clock : Readings) (client : ClientId) (tokens : List String)
      (e : MatchingEngine P) (o : Option (Response P × MatchingEngine P))
      → Handled parsers clock client tokens e o
      → Answers o
  Handled-Answers parsers clock client tokens e none h = absurd h
  Handled-Answers parsers clock client tokens e (some (answer, e')) h = (answer, e', refl)

  -- Every command of an authenticated client is answered: no exception leaves `dispatch_command`.
  pub dispatch_command-answers :
      (parsers : Parsers P) (clock : Readings) (client : ClientId) (tokens : List String)
      (market : MarketData P) (e : MatchingEngine P)
      → (answer : Response P) × (e' : MatchingEngine P) × (dispatch_command parsers clock client
            tokens market e
          ≡ some (answer, e'))
  dispatch_command-answers parsers clock client tokens market e =
      dispatch_command_cases Answers parsers clock client tokens market e
        (Handled-Answers parsers clock client tokens e _
          (handle_order_command-Handled parsers clock client tokens e))
        (_, _, refl) (_, _, refl) (_, _, refl) (λ answer. (answer, e, refl))

  -- But for ORDER and PORTFOLIO, a command does the same whichever client sends it.
  pub dispatch_command-anyone :
      (parsers : Parsers P) (clock : Readings) (client other : ClientId) (tokens : List String)
      (market : MarketData P) (e : MatchingEngine P)
      → named tokens "ORDER" ≡ false
      → named tokens "PORTFOLIO" ≡ false
      → dispatch_command parsers clock client tokens market e
        ≡ dispatch_command parsers clock other tokens market e
  unfolding dispatch_command
  dispatch_command-anyone parsers clock client other tokens market e h k = ground (arith, h, k)
