-- ===== src/Server/Connection.antt =====
-- `handle_connection` and `watcher_loop` of Src_Simulation/src/net/simulation_server.cpp.
use Prim.Native.String.{String}
use stock_market_trading_sim.Common.{
  ℕ, ◌+◌, ◌%◌, Bool, true, false, ◌&&◌, Option, none, some, List, [], ◌∷◌, eqb, ltb, if◌then◌else◌,
}
use stock_market_trading_sim.Common.Int.{pos}
use stock_market_trading_sim.Common.Keys.{symbol_key}
use stock_market_trading_sim.Double.{Double}
use stock_market_trading_sim.Types.{ClientId, Symbol}
use stock_market_trading_sim.MarketData.{MarketData}
use stock_market_trading_sim.Auth.{
  ClientDirectory, RegisterOutcome, AuthOutcome, register_client, authenticate, resolve_token,
}
use stock_market_trading_sim.Engine.{
  MatchingEngine, Readings, ensure_client, grant_initial_holdings, symbols,
}
use stock_market_trading_sim.Engine.Release.{ReleaseSummary, try_release_waiting_orders}
use stock_market_trading_sim.Server.Text.{Parsers, split, token_at, named, sized}
use stock_market_trading_sim.Server.Commands.{Response, dispatch_command}

-- What the connections share.
pub record World (P : Type 0) : Type 0 where
  pub directory : ClientDirectory
  pub engine : MatchingEngine P
  pub market : MarketData P

-- `authenticated` and `client_id`.
pub data Peer : Type 0 where
  anonymous : Peer
  client : ClientId → Peer

-- A message that arrives, with what its round reads and draws. `delivered` tells whether the answer could be
-- sent.
pub record Inbound : Type 0 where
  pub text : String
  pub clock : Readings
  pub salt : String
  pub token : String
  pub delivered : Bool

-- What a round answers and leaves. `stays` is false where the loop ends.
pub record Round (P : Type 0) : Type 0 where
  pub answer : Response P
  pub peer : Peer
  pub world : World P
  pub stays : Bool

module _ {P : Type 0} ⦃d : Double P⦄ where
  -- The loop over the symbols that endows a new client.
  unfoldable pub grant_all : ClientId → List Symbol → MatchingEngine P → MatchingEngine P
  grant_all id [] e = e
  grant_all id (s ∷ ss) e = grant_all id ss (grant_initial_holdings id s (pos 50) e)

  unfoldable pub endow : ClientId → MatchingEngine P → MatchingEngine P
  endow id e =
      let known = ensure_client id (d.ratio 100000 1) e in grant_all id (symbols known) known

  abbrev pub registered_round : RegisterOutcome × ClientDirectory → World P → Round P
  registered_round (RegisterOutcome.registered id token, dir) w = record {
    answer = Response.registered_as id token;
    peer = Peer.client id;
    world = record w { directory = dir; engine = endow id w.engine };
    stays = true;
  }
  registered_round (RegisterOutcome.username_taken, dir) w = record {
    answer = Response.username_taken;
    peer = Peer.anonymous;
    world = record w { directory = dir };
    stays = true;
  }

  abbrev pub anonymous_round : Response P → World P → Bool → Round P
  anonymous_round answer w stays = record {
    answer = answer;
    peer = Peer.anonymous;
    world = w;
    stays = stays;
  }

  abbrev pub login_round : AuthOutcome × ClientDirectory → World P → Round P
  login_round (AuthOutcome.authenticated id token, dir) w = record {
    answer = Response.logged_in id token;
    peer = Peer.client id;
    world = record w { directory = dir };
    stays = true;
  }
  login_round (AuthOutcome.unknown_username, dir) w =
      anonymous_round Response.unknown_username (record w { directory = dir }) true
  login_round (AuthOutcome.wrong_password, dir) w =
      anonymous_round Response.wrong_password (record w { directory = dir }) true

  abbrev pub resumed_round : Option ClientId → World P → Round P
  resumed_round (some id) w = record {
    answer = Response.resumed id;
    peer = Peer.client id;
    world = w;
    stays = true;
  }
  resumed_round none w = anonymous_round Response.unknown_token w true

  -- The end of a round of a client, on what the command gives. An exception leaves the engine as it was, since the
  -- one call that the model lets fail, `submit_order`, always returns.
  abbrev pub command_round :
      ClientId → Bool → Option (Response P × MatchingEngine P) → World P → Round P
  command_round id sent (some (answer, e)) w = record {
    answer = answer;
    peer = Peer.client id;
    world = record w { engine = e };
    stays = sent;
  }
  command_round id sent none w = record {
    answer = Response.internal_error;
    peer = Peer.client id;
    world = w;
    stays = sent;
  }

  module _ (hash : String → String → String) (parsers : Parsers P) where
    unfoldable pub handle_anonymous : Inbound → List String → World P → Round P
    handle_anonymous i tokens w =
        if sized tokens "REGISTER" 3
        then registered_round
            (register_client hash i.salt i.token (token_at tokens 1) (token_at tokens 2)
              w.directory)
            w
        else if sized tokens "LOGIN" 3
        then login_round
            (authenticate hash i.token (token_at tokens 1) (token_at tokens 2) w.directory) w
        else if sized tokens "RESUME" 2
        then resumed_round (resolve_token (token_at tokens 1) w.directory) w
        else if named tokens "QUIT"
        then anonymous_round Response.bye w false
        else anonymous_round Response.not_authenticated w true

    unfoldable pub handle_client : ClientId → Inbound → List String → World P → Round P
    handle_client id i tokens w =
        if named tokens "QUIT"
        then record { answer = Response.bye; peer = Peer.client id; world = w; stays = false }
        else command_round id i.delivered
            (dispatch_command parsers i.clock id tokens w.market w.engine) w

    -- One round of the loop, on the tokens of the message.
    unfoldable pub handle_tokens : Peer → Inbound → List String → World P → Round P
    handle_tokens peer i [] w = record {
      answer = Response.empty_command;
      peer = peer;
      world = w;
      stays = true;
    }
    handle_tokens Peer.anonymous i (t ∷ ts) w = handle_anonymous i (t ∷ ts) w
    handle_tokens (Peer.client id) i (t ∷ ts) w = handle_client id i (t ∷ ts) w

    unfoldable pub handle_message : Peer → Inbound → World P → Round P
    handle_message peer i w = handle_tokens peer i (split i.text) w

    abbrev pub and_then : Round P → List (Response P) × World P → List (Response P) × World P
    and_then r (answers, w) = if r.stays then (r.answer ∷ answers, w) else (r.answer ∷ [], r.world)

    -- The loop of a connection, over the messages that arrive until it ends.
    unfoldable pub handle_connection : List Inbound → Peer → World P → List (Response P) × World P
    handle_connection [] peer w = ([], w)
    handle_connection (i ∷ is) peer w =
        let r = handle_message peer i w in and_then r (handle_connection is r.peer r.world)

  -- A round of `watcher_loop`: the tick, and the release of waiting orders.
  unfoldable pub watcher_round :
      ℕ → Readings → ℕ → MatchingEngine P → ℕ × Option (ReleaseSummary P × MatchingEngine P)
  watcher_round every clock tick e =
      let next = tick + 1 in
      (next, try_release_waiting_orders clock (ltb 0 every && eqb (next % every) 0) e)
