-- ===== src/Server/Served.antt =====
-- What the rounds of the connections keep (Src_Simulation/src/net/simulation_server.cpp).
use Prim.Native.String.{String}
use stock_market_trading_sim.Common.{
  ◌≡◌, refl, Bool, true, false, Option, none, some, List, [], ◌∷◌, either, inl, inr, ◌⊎◌,
}
use stock_market_trading_sim.Common.Int.{pos}
use stock_market_trading_sim.Common.Keys.{symbol_key}
use stock_market_trading_sim.Double.{Double, IsOrdered}
use stock_market_trading_sim.Types.{ClientId, OrderId, Symbol, OrderRequest, SubmitResult}
use stock_market_trading_sim.Notification.{Event}
use stock_market_trading_sim.MarketData.{MarketData, on_event}
use stock_market_trading_sim.Auth.{
  ClientDirectory, RegisterOutcome, AuthOutcome, empty_directory, register_client, authenticate,
  resolve_token,
}
use stock_market_trading_sim.Auth.Accounts.{
  IsSound, Session, opened, registers, authenticates, Session-IsSound,
}
use stock_market_trading_sim.Engine.{MatchingEngine, Readings, symbols, portfolio_snapshot}
use stock_market_trading_sim.Registry.{size}
use stock_market_trading_sim.Engine.Submit.{submit_order}
use stock_market_trading_sim.Engine.Release.{
  ReleaseSummary, try_release_waiting_orders, cancel_order, cancel_order_at, cancel_waiting_order,
}
use stock_market_trading_sim.Engine.Books.{BooksValid}
use stock_market_trading_sim.Engine.Reach.{
  Reach, next, ensures, grants, submits, releases, cancels, cancels_at, cancels_waiting,
  Reach-BooksValid,
}
use stock_market_trading_sim.Server.Text.{Parsers, token_at, named, sized}
use stock_market_trading_sim.Server.Commands.{
  Response, dispatch_command, handle_order_command, submitted, answered, cancel_command,
  cancel_anywhere, cancel_waiting_command, cancel_book_command, outcome, quote,
}
use stock_market_trading_sim.Server.Connection.{
  World, Peer, Inbound, Round, grant_all, endow, registered_round, login_round, resumed_round,
  anonymous_round, command_round, handle_anonymous, handle_client, handle_tokens, handle_message,
}

module _ {P : Type 0} ⦃d : Double P⦄ where
  -- What a call that may fail leaves.
  abbrev Leaves :
      {A : Type 0} → (MatchingEngine P → Type 0) → Option (A × MatchingEngine P) → Type 0
  Leaves Q none = Unit
  Leaves Q (some (a, e)) = Q e

  grant_all-Reach :
      (id : ClientId) (ss : List Symbol) (e : MatchingEngine P)
      → Reach e
      → Reach (grant_all id ss e)
  unfolding grant_all
  grant_all-Reach id [] e h = h
  grant_all-Reach id (s ∷ ss) e h = grant_all-Reach id ss _ (next h (grants id s (pos 50)))

  endow-Reach : (id : ClientId) (e : MatchingEngine P) → Reach e → Reach (endow id e)
  unfolding endow
  endow-Reach id e h = grant_all-Reach id _ _ (next h (ensures id (d.ratio 100000 1)))

  answered-Reach :
      (clock : Readings) (r : OrderRequest P) (e : MatchingEngine P)
      (o : Option (SubmitResult P × MatchingEngine P))
      → submit_order clock r e ≡ o
      → Reach e
      → Leaves Reach (answered r.kind o)
  answered-Reach clock r e none k h = tt
  answered-Reach clock r e (some (res, e')) k h = next h (submits clock r res k)

  submitted-Reach :
      (clock : Readings) (x : Response P ⊎ OrderRequest P) (e : MatchingEngine P)
      → Reach e
      → Leaves Reach (submitted clock x e)
  submitted-Reach clock (inl answer) e h = h
  submitted-Reach clock (inr r) e h = answered-Reach clock r e (submit_order clock r e) refl h

  handle_order_command-Reach :
      (parsers : Parsers P) (clock : Readings) (id : ClientId) (tokens : List String)
      (e : MatchingEngine P)
      → Reach e
      → Leaves Reach (handle_order_command parsers clock id tokens e)
  unfolding handle_order_command
  handle_order_command-Reach parsers clock id [] e h = h
  handle_order_command-Reach parsers clock id (a ∷ []) e h = h
  handle_order_command-Reach parsers clock id (a ∷ b ∷ []) e h = h
  handle_order_command-Reach parsers clock id (a ∷ b ∷ c ∷ []) e h = h
  handle_order_command-Reach parsers clock id (a ∷ b ∷ c ∷ f ∷ []) e h = h
  handle_order_command-Reach parsers clock id (a ∷ b ∷ c ∷ f ∷ g ∷ pairs) e h =
      submitted-Reach clock _ e h

  outcome-Reach : (r : Bool × MatchingEngine P) → Reach r.1 → Reach (outcome r).1
  outcome-Reach (true, e) h = h
  outcome-Reach (false, e) h = h

  cancel_anywhere-Reach :
      (id : OrderId) (r : Bool × MatchingEngine P) → Reach r.1 → Reach (cancel_anywhere id r).1
  cancel_anywhere-Reach id (true, e) h = h
  cancel_anywhere-Reach id (false, e) h =
      outcome-Reach (cancel_waiting_order id e) (next h (cancels_waiting id))

  cancel_command-Reach :
      (o : Option OrderId) (s : Symbol) (e : MatchingEngine P)
      → Reach e
      → Reach (cancel_command o s e).1
  unfolding cancel_command
  cancel_command-Reach none s e h = h
  cancel_command-Reach (some id) s e h =
      cancel_anywhere-Reach id (cancel_order s id e) (next h (cancels s id))

  cancel_waiting_command-Reach :
      (o : Option OrderId) (e : MatchingEngine P) → Reach e → Reach (cancel_waiting_command o e).1
  unfolding cancel_waiting_command
  cancel_waiting_command-Reach none e h = h
  cancel_waiting_command-Reach (some id) e h =
      outcome-Reach (cancel_waiting_order id e) (next h (cancels_waiting id))

  cancel_book_command-Reach :
      (o : Option OrderId) (s : Symbol) (side : String) (price : Option P) (e : MatchingEngine P)
      → Reach e
      → Reach (cancel_book_command o s side price e).1
  unfolding cancel_book_command
  cancel_book_command-Reach none s side price e h = h
  cancel_book_command-Reach (some id) s side none e h = h
  cancel_book_command-Reach (some id) s side (some p) e h =
      outcome-Reach (cancel_order_at s _ p id e) (next h (cancels_at s _ p id))

  -- The cases of a command: an order, three cancellations, and the ones that only read.
  pub dispatch_command_cases {κ} :
      (Q : Option (Response P × MatchingEngine P) → Type κ) (parsers : Parsers P) (clock : Readings)
      (id : ClientId) (tokens : List String) (market : MarketData P) (e : MatchingEngine P)
      → Q (handle_order_command parsers clock id tokens e)
      → Q (some (cancel_command (parsers.stoull (token_at tokens 1)) (token_at tokens 2) e))
      → Q (some (cancel_waiting_command (parsers.stoull (token_at tokens 1)) e))
      → Q (
          some (
            cancel_book_command
              (parsers.stoull (token_at tokens 1))
              (token_at tokens 2)
              (token_at tokens 3)
              (parsers.stod (token_at tokens 4))
              e))
      → ((answer : Response P) → Q (some (answer, e)))
      → Q (dispatch_command parsers clock id tokens market e)
  unfolding dispatch_command
  dispatch_command_cases Q parsers clock id tokens market e order cancel waiting book reads =
      either Q (named tokens "ORDER") order (
        either Q (sized tokens "CANCEL" 3) cancel (
          either Q (sized tokens "CANCEL_WAITING" 2) waiting (
            either Q (sized tokens "CANCEL_BOOK" 5) book (
              either Q (named tokens "PORTFOLIO")
                (reads (Response.portfolio_of (portfolio_snapshot id e)))
                (either Q (sized tokens "MARKET" 2)
                  (reads (Response.market_quote (quote (token_at tokens 1) market e)))
                  (either Q (named tokens "SYMBOLS") (reads (Response.symbol_list (symbols e))) (
                    either Q (named tokens "METRICS")
                      (reads (Response.metrics_report e.metrics (size e.registry)))
                      (reads Response.unknown_command))))))))

  dispatch_command-Reach :
      (parsers : Parsers P) (clock : Readings) (id : ClientId) (tokens : List String)
      (market : MarketData P) (e : MatchingEngine P)
      → Reach e
      → Leaves Reach (dispatch_command parsers clock id tokens market e)
  dispatch_command-Reach parsers clock id tokens market e h =
      dispatch_command_cases (Leaves Reach) parsers clock id tokens market e
        (handle_order_command-Reach parsers clock id tokens e h) (cancel_command-Reach _ _ e h)
        (cancel_waiting_command-Reach _ e h) (cancel_book_command-Reach _ _ _ _ e h) (λ answer. h)

  module _ (hash : String → String → String) (parsers : Parsers P) where
    -- What the connections share has come about by calls of its parts.
    pub record Sound (w : World P) : Type 0 where
      pub engine_Reach : Reach w.engine
      pub directory_Session : Session hash w.directory

    abbrev SoundAfter : Round P → Type 0
    SoundAfter r = Sound r.world

    registered_round-Sound :
        (r : RegisterOutcome × ClientDirectory) (w : World P)
        → Session hash r.1
        → Sound w
        → Sound (registered_round r w).world
    registered_round-Sound (RegisterOutcome.registered id token, dir) w s v = record {
      engine_Reach = endow-Reach id w.engine v.engine_Reach;
      directory_Session = s;
    }
    registered_round-Sound (RegisterOutcome.username_taken, dir) w s v = record {
      engine_Reach = v.engine_Reach;
      directory_Session = s;
    }

    login_round-Sound :
        (r : AuthOutcome × ClientDirectory) (w : World P)
        → Session hash r.1
        → Sound w
        → Sound (login_round r w).world
    login_round-Sound (AuthOutcome.authenticated id token, dir) w s v = record {
      engine_Reach = v.engine_Reach;
      directory_Session = s;
    }
    login_round-Sound (AuthOutcome.unknown_username, dir) w s v = record {
      engine_Reach = v.engine_Reach;
      directory_Session = s;
    }
    login_round-Sound (AuthOutcome.wrong_password, dir) w s v = record {
      engine_Reach = v.engine_Reach;
      directory_Session = s;
    }

    resumed_round-Sound :
        (o : Option ClientId) (w : World P) → Sound w → Sound (resumed_round o w).world
    resumed_round-Sound none w v = v
    resumed_round-Sound (some id) w v = v

    handle_anonymous-Sound :
        (i : Inbound) (tokens : List String) (w : World P)
        → Sound w
        → Sound (handle_anonymous hash parsers i tokens w).world
    unfolding handle_anonymous
    handle_anonymous-Sound i tokens w v =
        let reg =
          register_client hash i.salt i.token (token_at tokens 1) (token_at tokens 2) w.directory in
        let log = authenticate hash i.token (token_at tokens 1) (token_at tokens 2) w.directory in
        let res = resolve_token (token_at tokens 1) w.directory in
        either SoundAfter (sized tokens "REGISTER" 3) {x = registered_round reg w}
          (registered_round-Sound reg w
            (registers i.salt i.token (token_at tokens 1) (token_at tokens 2) v.directory_Session)
            v)
          (either SoundAfter (sized tokens "LOGIN" 3) {x = login_round log w}
            (login_round-Sound log w
              (authenticates i.token (token_at tokens 1) (token_at tokens 2) v.directory_Session) v)
            (either SoundAfter (sized tokens "RESUME" 2) {x = resumed_round res w}
              (resumed_round-Sound res w v)
              (either SoundAfter (named tokens "QUIT") {x = anonymous_round Response.bye w false}
                {y = anonymous_round Response.not_authenticated w true} v v)))

    command_round-Sound :
        (id : ClientId) (sent : Bool) (o : Option (Response P × MatchingEngine P)) (w : World P)
        → Leaves Reach o
        → Sound w
        → Sound (command_round id sent o w).world
    command_round-Sound id sent none w h v = v
    command_round-Sound id sent (some (answer, e)) w h v = record {
      engine_Reach = h;
      directory_Session = v.directory_Session;
    }

    handle_tokens-Sound :
        (peer : Peer) (i : Inbound) (tokens : List String) (w : World P)
        → Sound w
        → Sound (handle_tokens hash parsers peer i tokens w).world
    unfolding handle_tokens handle_client
    handle_tokens-Sound peer i [] w v = v
    handle_tokens-Sound Peer.anonymous i (t ∷ ts) w v = handle_anonymous-Sound i (t ∷ ts) w v
    handle_tokens-Sound (Peer.client id) i (t ∷ ts) w v =
        either SoundAfter (named (t ∷ ts) "QUIT")
          {x = record { answer = Response.bye; peer = Peer.client id; world = w; stays = false }} v
          (command_round-Sound id i.delivered
            (dispatch_command parsers i.clock id (t ∷ ts) w.market w.engine) w
            (dispatch_command-Reach parsers i.clock id (t ∷ ts) w.market w.engine v.engine_Reach) v)

    -- The states that the server gets to, while rounds of any connections, ticks of the watcher and
    -- events at the market data alternate in any way.
    pub data Served : World P → Type 0 where
      opens :
          {e : MatchingEngine P} (market : MarketData P)
          → Reach e
          → Served (record { directory = empty_directory; engine = e; market = market })
      rounds :
          {w : World P} (peer : Peer) (i : Inbound)
          → Served w
          → Served (handle_message hash parsers peer i w).world
      ticks :
          {w : World P} (clock : Readings) (full_scan : Bool) (summary : ReleaseSummary P)
          {e : MatchingEngine P}
          → try_release_waiting_orders clock full_scan w.engine ≡ some (summary, e)
          → Served w
          → Served (record w { engine = e })
      hears :
          {w : World P} (event : Event P)
          → Served w
          → Served (record w { market = on_event event w.market })

    Served-Sound : {w : World P} → Served w → Sound w
    unfolding handle_message
    Served-Sound (opens market h) = record { engine_Reach = h; directory_Session = opened }
    Served-Sound (rounds {w} peer i s) = handle_tokens-Sound peer i _ w (Served-Sound s)
    Served-Sound (ticks clock full summary k s) =
        let v = Served-Sound s in
        record {
          engine_Reach = next v.engine_Reach (releases clock full summary k);
          directory_Session = v.directory_Session;
        }
    Served-Sound (hears event s) =
        let v = Served-Sound s in
        record { engine_Reach = v.engine_Reach; directory_Session = v.directory_Session }

    -- However the rounds of any connections, the ticks of the watcher and the events at the market data alternate, every book stays valid and of its own symbol, and the ids and tokens of the client directory stay sound.
    pub Served-IsSound :
        IsOrdered P → {w : World P} → Served w → BooksValid w.engine.books × IsSound w.directory
    Served-IsSound laws s =
        let v = Served-Sound s in
        (Reach-BooksValid laws v.engine_Reach, Session-IsSound hash v.directory_Session)
