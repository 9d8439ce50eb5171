-- ===== src/Auth.antt =====
-- Src_Simulation/include/net/auth.hpp and src/net/auth.cpp: the directory of clients, their salted
-- password hashes and their session tokens. The hash and the random draws are arguments;
-- client ids are unbounded.
pub mod Accounts
pub mod LoginRoundTrip
use stock_market_trading_sim.Common.{
  ℕ, ◌+◌, Bool, true, false, not, Option, none, some, List, [], ◌∷◌, map, length, leb, is_some,
  if◌then◌else◌,
}
use Prim.Native.String.{String}
use stock_market_trading_sim.Common.Keys.{◌==◌, symbol_key}
use stock_market_trading_sim.Common.Maps.{Map, lookup, insert, emplace}
use stock_market_trading_sim.Types.{ClientId}

pub record Account : Type 0 where
  pub client_id : ClientId
  pub salt : String
  pub password_hash : String

pub record AccountRecord : Type 0 where
  pub username : String
  pub record_id : ClientId
  pub record_salt : String
  pub record_hash : String

pub record ClientDirectory : Type 0 where
  pub accounts : Map String Account
  pub tokens : Map String ClientId
  pub next_client_id : ClientId

abbrev pub empty_directory : ClientDirectory
empty_directory = record { accounts = []; tokens = []; next_client_id = 1 }

pub data RegisterOutcome : Type 0 where
  registered : ClientId → String → RegisterOutcome
  username_taken : RegisterOutcome

pub data AuthOutcome : Type 0 where
  authenticated : ClientId → String → AuthOutcome
  unknown_username wrong_password : AuthOutcome

-- `hash salt password` is `hash_password`; `salt` and `token` are what the generators draw.
module _ (hash : String → String → String) where
  abbrev pub account_for : ClientId → String → String → Account
  account_for id salt password = record {
    client_id = id;
    salt = salt;
    password_hash = hash salt password;
  }

  unfoldable pub register_client :
      (salt token username password : String) → ClientDirectory → RegisterOutcome × ClientDirectory
  register_client salt token username password d =
      if is_some (lookup username d.accounts) then (RegisterOutcome.username_taken, d) else (
        RegisterOutcome.registered d.next_client_id token,
        record {
          accounts = emplace username (account_for d.next_client_id salt password) d.accounts;
          tokens = emplace token d.next_client_id d.tokens;
          next_client_id = d.next_client_id + 1;
        },
      )

  -- The tests of `authenticate`, on what the look-up finds.
  unfoldable pub check_password :
      Option Account → (token password : String) → ClientDirectory → AuthOutcome × ClientDirectory
  check_password none token password d = (AuthOutcome.unknown_username, d)
  check_password (some a) token password d =
      if not (hash a.salt password == a.password_hash) then (AuthOutcome.wrong_password, d) else (
        AuthOutcome.authenticated a.client_id token,
        record d { tokens = emplace token a.client_id d.tokens },
      )

  unfoldable pub authenticate :
      (token username password : String) → ClientDirectory → AuthOutcome × ClientDirectory
  authenticate token username password d =
      check_password (lookup username d.accounts) token password d

unfoldable pub resolve_token : String → ClientDirectory → Option ClientId
resolve_token token d = lookup token d.tokens

unfoldable pub client_count : ClientDirectory → ℕ
client_count d = length d.accounts

abbrev pub exported : String × Account → AccountRecord
exported (name, a) = record {
  username = name;
  record_id = a.client_id;
  record_salt = a.salt;
  record_hash = a.password_hash;
}

unfoldable pub export_accounts : ClientDirectory → List AccountRecord
export_accounts d = map exported d.accounts

abbrev pub account_of : AccountRecord → Account
account_of r = record {
  client_id = r.record_id;
  salt = r.record_salt;
  password_hash = r.record_hash;
}

unfoldable pub import_account : AccountRecord → ClientDirectory → ClientDirectory
import_account r d = record d {
  accounts = insert r.username (account_of r) d.accounts;
  next_client_id = if leb d.next_client_id r.record_id then r.record_id + 1 else d.next_client_id;
}
