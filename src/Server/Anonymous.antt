-- ===== src/Server/Anonymous.antt =====
-- What a connection can do before it is authenticated (Src_Simulation/src/net/simulation_server.cpp).
use Prim.Native.String.{String}
use stock_market_trading_sim.Common.{
  ◌≡◌, ◌≢◌, refl, ◌∙◌, true, false, Option, none, some, List, [], ◌∷◌, arith, either, is_some,
}
use stock_market_trading_sim.Common.Int.{pos}
use stock_market_trading_sim.Common.Keys.{id_key, symbol_key}
use stock_market_trading_sim.Common.Maps.{lookup, lookup-insert, lookup-emplace}
use stock_market_trading_sim.Double.{Double}
use stock_market_trading_sim.Types.{ClientId, Symbol}
use stock_market_trading_sim.Auth.{
  ClientDirectory, RegisterOutcome, AuthOutcome, register_client, authenticate, resolve_token,
}
use stock_market_trading_sim.Engine.{MatchingEngine, ensure_client, grant_initial_holdings, symbols}
use stock_market_trading_sim.Server.Text.{Parsers, split, token_at, named, sized}
use stock_market_trading_sim.Server.Commands.{Response}
use stock_market_trading_sim.Server.Connection.{
  World, Peer, Inbound, Round, grant_all, endow, registered_round, login_round, resumed_round,
  anonymous_round, handle_anonymous, handle_tokens, handle_message,
}

module _ {P : Type 0} ⦃d : Double P⦄ where
  -- From e to e' nothing has changed but the portfolio of one client.
  pub record OnlyEndows (id : ClientId) (e e' : MatchingEngine P) : Type 0 where
    pub books_eq : e'.books ≡ e.books
    pub prices_eq : e'.last_prices ≡ e.last_prices
    pub registry_eq : e'.registry ≡ e.registry
    pub ids_eq : e'.next_order_id ≡ e.next_order_id
    pub events_eq : e'.events ≡ e.events
    pub others_eq : (c : ClientId) → c ≢ id → lookup c e'.portfolios ≡ lookup c e.portfolios

  OnlyEndows-refl : (id : ClientId) (e : MatchingEngine P) → OnlyEndows id e e
  OnlyEndows-refl id e = record {
    books_eq = refl;
    prices_eq = refl;
    registry_eq = refl;
    ids_eq = refl;
    events_eq = refl;
    others_eq = λ c n. refl;
  }

  grant-others :
      (id : ClientId) (s : Symbol) (e : MatchingEngine P) (c : ClientId)
      → c ≢ id
      → lookup c (grant_initial_holdings id s (pos 50) e).portfolios ≡ lookup c e.portfolios
  unfolding grant_initial_holdings
  grant-others id s e c n = lookup-insert id c _ e.portfolios ∙ ground (arith, id_key.same_iff id c)

  ensure-others :
      (id : ClientId) (cash : P) (e : MatchingEngine P) (c : ClientId)
      → c ≢ id
      → lookup c (ensure_client id cash e).portfolios ≡ lookup c e.portfolios
  unfolding ensure_client
  ensure-others id cash e c n =
      lookup-emplace id c _ e.portfolios ∙ ground (arith, id_key.same_iff id c)

  grant_all-OnlyEndows :
      (id : ClientId) (ss : List Symbol) (e e0 : MatchingEngine P)
      → OnlyEndows id e0 e
      → OnlyEndows id e0 (grant_all id ss e)
  unfolding grant_all
  grant_all-OnlyEndows id [] e e0 h = h
  grant_all-OnlyEndows id (s ∷ ss) e e0 h =
      grant_all-OnlyEndows id ss (grant_initial_holdings id s (pos 50) e) e0 (
        unfold grant_initial_holdings in
        record {
          books_eq = h.books_eq;
          prices_eq = h.prices_eq;
          registry_eq = h.registry_eq;
          ids_eq = h.ids_eq;
          events_eq = h.events_eq;
          others_eq = λ c n. grant-others id s e c n ∙ h.others_eq c n;
        })

  endow-OnlyEndows : (id : ClientId) (e : MatchingEngine P) → OnlyEndows id e (endow id e)
  unfolding endow
  endow-OnlyEndows id e =
      let known = ensure_client id (d.ratio 100000 1) e in
      grant_all-OnlyEndows id (symbols known) known e (
        unfold ensure_client in
        record {
          books_eq = refl;
          prices_eq = refl;
          registry_eq = refl;
          ids_eq = refl;
          events_eq = refl;
          others_eq = ensure-others id (d.ratio 100000 1) e;
        })

  module _ (hash : String → String → String) (parsers : Parsers P) where
    -- What a round of an anonymous connection leaves of the engine and of the accounts.
    abbrev pub Harmless : World P → Round P → Type 0
    Harmless w r =
        OnlyEndows w.directory.next_client_id w.engine r.world.engine × (r.world.market ≡ w.market)

    registered_round-Harmless :
        (salt token name password : String) (w : World P)
        → Harmless w
            (registered_round (register_client hash salt token name password w.directory) w)
    unfolding register_client
    registered_round-Harmless salt token name password w =
        either {A = RegisterOutcome × ClientDirectory} (λ r. Harmless w (registered_round r w))
          (is_some (lookup name w.directory.accounts)) (OnlyEndows-refl _ w.engine, refl)
          (endow-OnlyEndows w.directory.next_client_id w.engine, refl)

    login_round-Harmless :
        (r : AuthOutcome × ClientDirectory) (w : World P) → Harmless w (login_round r w)
    login_round-Harmless (AuthOutcome.authenticated id token, dir) w =
        (OnlyEndows-refl _ w.engine, refl)
    login_round-Harmless (AuthOutcome.unknown_username, dir) w = (OnlyEndows-refl _ w.engine, refl)
    login_round-Harmless (AuthOutcome.wrong_password, dir) w = (OnlyEndows-refl _ w.engine, refl)

    resumed_round-Harmless : (o : Option ClientId) (w : World P) → Harmless w (resumed_round o w)
    resumed_round-Harmless none w = (OnlyEndows-refl _ w.engine, refl)
    resumed_round-Harmless (some id) w = (OnlyEndows-refl _ w.engine, refl)

    handle_anonymous-Harmless :
        (i : Inbound) (tokens : List String) (w : World P)
        → Harmless w (handle_anonymous hash parsers i tokens w)
    unfolding handle_anonymous
    handle_anonymous-Harmless i tokens w =
        let reg =
          register_client hash i.salt i.token (token_at tokens 1) (token_at tokens 2) w.directory in
        let log = authenticate hash i.token (token_at tokens 1) (token_at tokens 2) w.directory in
        let res = resolve_token (token_at tokens 1) w.directory in
        either (Harmless w) (sized tokens "REGISTER" 3) {x = registered_round reg w}
          (registered_round-Harmless i.salt i.token (token_at tokens 1) (token_at tokens 2) w)
          (either (Harmless w) (sized tokens "LOGIN" 3) {x = login_round log w}
            (login_round-Harmless log w)
            (either (Harmless w) (sized tokens "RESUME" 2) {x = resumed_round res w}
              (resumed_round-Harmless res w)
              (either (Harmless w) (named tokens "QUIT") {x = anonymous_round Response.bye w false}
                {y = anonymous_round Response.not_authenticated w true}
                (OnlyEndows-refl _ w.engine, refl) (OnlyEndows-refl _ w.engine, refl))))

    -- Whatever an anonymous connection sends, no book, price, waiting order, order id or event changes, and no portfolio but that of the next client id.
    pub handle_message-Harmless :
        (i : Inbound) (w : World P) → Harmless w (handle_message hash parsers Peer.anonymous i w)
    unfolding handle_message handle_tokens
    handle_message-Harmless i w = tokens_lem i (split i.text) w
      where
        tokens_lem :
            (i : Inbound) (tokens : List String) (w : World P)
            → Harmless w (handle_tokens hash parsers Peer.anonymous i tokens w)
        tokens_lem i [] w = (OnlyEndows-refl _ w.engine, refl)
        tokens_lem i (t ∷ ts) w = handle_anonymous-Harmless i (t ∷ ts) w
