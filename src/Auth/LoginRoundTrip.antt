-- ===== src/Auth/LoginRoundTrip.antt =====
-- Registering and then logging in (Src_Simulation/src/net/auth.cpp).
use Prim.Native.String.{String}
use stock_market_trading_sim.Common.{◌≡◌, ◌≢◌, refl, none, some, arith}
use stock_market_trading_sim.Common.Keys.{symbol_key}
use stock_market_trading_sim.Common.Maps.{lookup, lookup-emplace}
use stock_market_trading_sim.Auth.{
  ClientDirectory, RegisterOutcome, AuthOutcome, account_for, register_client, check_password,
  authenticate, resolve_token,
}

module _ (hash : String → String → String) where
  -- What follows a registration under a new name, with a token that was not in use: the token resolves to the new id, the same password authenticates as that id, a password with another hash is refused, and what the directory says of other names and tokens is unchanged.
  pub record Follows (salt token username password : String) (d : ClientDirectory) : Type 0 where
    pub answer :
        (register_client hash salt token username password d).0
        ≡ RegisterOutcome.registered d.next_client_id token
    pub token_resolves :
        resolve_token token (register_client hash salt token username password d).1
        ≡ some d.next_client_id
    pub logs_in :
        (again : String)
        → (authenticate hash again username password
            (register_client hash salt token username password d).1).0
          ≡ AuthOutcome.authenticated d.next_client_id again
    pub refused :
        (again other : String)
        → hash salt other ≢ hash salt password
        → (authenticate hash again username other
            (register_client hash salt token username password d).1).0
          ≡ AuthOutcome.wrong_password
    pub other_names :
        (again name other : String)
        → name ≢ username
        → (authenticate hash again name other
            (register_client hash salt token username password d).1).0
          ≡ (authenticate hash again name other d).0
    pub other_tokens :
        (t : String)
        → t ≢ token
        → resolve_token t (register_client hash salt token username password d).1
          ≡ resolve_token t d

  -- A registration under a name that is not in use, with a token that is not, is followed by what `Follows` states.
  pub register_client-Follows :
      (salt token username password : String) (d : ClientDirectory)
      → lookup username d.accounts ≡ none
      → lookup token d.tokens ≡ none
      → Follows salt token username password d
  unfolding register_client authenticate resolve_token check_password
  register_client-Follows salt token username password d h k = record {
    answer = rw h refl;
    token_resolves = ground (
      arith,
      lookup-emplace token token d.next_client_id d.tokens,
      symbol_key.same_iff token token,
    );
    logs_in = λ again. ground (
      arith,
      lookup-emplace username username (account_for hash d.next_client_id salt password) d.accounts,
      symbol_key.same_iff username username,
      symbol_key.same_iff (hash salt password) (hash salt password),
    );
    refused = λ again. λ other. λ c. ground (
      arith,
      lookup-emplace username username (account_for hash d.next_client_id salt password) d.accounts,
      symbol_key.same_iff username username,
      symbol_key.same_iff (hash salt other) (hash salt password),
    );
    other_names = λ again. λ name. λ other. λ c. ground (
      arith,
      lookup-emplace username name (account_for hash d.next_client_id salt password) d.accounts,
      symbol_key.same_iff username name,
    );
    other_tokens = λ t. λ c.
        ground
          (arith, lookup-emplace token t d.next_client_id d.tokens, symbol_key.same_iff token t);
  }
