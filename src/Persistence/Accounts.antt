-- ===== src/Persistence/Accounts.antt =====
-- Saved accounts come back (Src_Simulation/src/net/auth.cpp and src/net/persistence.cpp).
use Prim.Native.String.{String}
use stock_market_trading_sim.Common.{
  ◌<◌, ◌≡◌, refl, ◌∙◌, not, Option, none, some, List, [], ◌∷◌, map, arith, is_some, either,
  if◌then◌else◌,
}
use stock_market_trading_sim.Common.Keys.{◌==◌, symbol_key}
use stock_market_trading_sim.Common.Maps.{
  Map, lookup, lookup-insert, Distinct, insert-Distinct, emplace-Distinct,
}
use stock_market_trading_sim.Auth.{
  Account, AccountRecord, ClientDirectory, AuthOutcome, RegisterOutcome, empty_directory,
  register_client, authenticate, check_password, exported, export_accounts, import_account,
  account_of,
}
use stock_market_trading_sim.Auth.Accounts.{
  Session, opened, registers, authenticates, imports, insert_cases,
}
use stock_market_trading_sim.Persistence.{restore_accounts}

-- After the restoration, a saved name has its account and the other names are as they were.
pub restored :
    (m : Map String Account) (d : ClientDirectory)
    → Distinct m
    → (u : String)
    → lookup u (restore_accounts (map exported m) d).accounts
      ≡ (if is_some (lookup u m) then lookup u m else lookup u d.accounts)
unfolding restore_accounts lookup import_account
restored [] d h u = refl
restored ((name, a) ∷ m) d (h, t) u =
    restored m (import_account (exported (name, a)) d) t u
    ∙ ground (arith, lookup-insert name u a d.accounts, symbol_key.same_iff name u, h)

Below : ClientDirectory → Type 0
Below d = (u : String) (a : Account) → lookup u d.accounts ≡ some a → a.client_id < d.next_client_id

import_account-Below :
    (r : AccountRecord) (d : ClientDirectory) → Below d → Below (import_account r d)
unfolding Below import_account
import_account-Below r d h u a e =
    ground (arith, insert_cases r.username u (account_of r) d.accounts a e, h u a)

restore_accounts-Below :
    (rs : List AccountRecord) (d : ClientDirectory) → Below d → Below (restore_accounts rs d)
unfolding restore_accounts
restore_accounts-Below [] d h = h
restore_accounts-Below (r ∷ rs) d h =
    restore_accounts-Below rs (import_account r d) (import_account-Below r d h)

check_password-Distinct :
    (hash : String → String → String) (o : Option Account) (token password : String)
    (d : ClientDirectory)
    → Distinct d.accounts
    → Distinct (check_password hash o token password d).1.accounts
unfolding check_password
check_password-Distinct hash none token password d h = h
check_password-Distinct hash (some a) token password d h =
    either {A = AuthOutcome × ClientDirectory} (λ r. Distinct r.1.accounts)
      (not (hash a.salt password == a.password_hash)) h h

Session-Distinct :
    (hash : String → String → String) {d : ClientDirectory} → Session hash d → Distinct d.accounts
unfolding register_client authenticate import_account
Session-Distinct hash opened = tt
Session-Distinct hash (registers {d} salt token username password s) =
    either {A = RegisterOutcome × ClientDirectory} (λ r. Distinct r.1.accounts)
      (is_some (lookup username d.accounts)) (Session-Distinct hash s)
      (emplace-Distinct username _ d.accounts (Session-Distinct hash s))
Session-Distinct hash (authenticates {d} token username password s) =
    check_password-Distinct hash (lookup username d.accounts) token password d
      (Session-Distinct hash s)
Session-Distinct hash (imports {d} r own s) =
    insert-Distinct r.username (account_of r) d.accounts (Session-Distinct hash s)

-- Restoring what was exported from a state of the directory gives an empty directory the same account for every name, and a next id above all of theirs.
pub record ComesBack (d : ClientDirectory) : Type 0 where
  pub accounts_eq :
      (u : String)
      → lookup u (restore_accounts (export_accounts d) empty_directory).accounts
        ≡ lookup u d.accounts
  pub new_ids :
      (u : String) (a : Account)
      → lookup u d.accounts ≡ some a
      → a.client_id < (restore_accounts (export_accounts d) empty_directory).next_client_id

same_accounts :
    (d : ClientDirectory)
    → Distinct d.accounts
    → (u : String)
    → lookup u (restore_accounts (export_accounts d) empty_directory).accounts ≡ lookup u d.accounts
unfolding export_accounts lookup
same_accounts d h u = restored d.accounts empty_directory h u ∙ ground arith

-- In every state of the directory, saving its accounts and restoring them into an empty directory gives the same account for every name, and a next id above every id.
pub Session-ComesBack :
    (hash : String → String → String) {d : ClientDirectory} → Session hash d → ComesBack d
unfolding Below export_accounts lookup
Session-ComesBack hash {d} s = record {
  accounts_eq = same_accounts d (Session-Distinct hash s);
  new_ids = λ u. λ a. λ e.
      restore_accounts-Below (export_accounts d) empty_directory
        (λ v. λ b. λ h. absurd (ground (arith, h))) u a
        (same_accounts d (Session-Distinct hash s) u ∙ e);
}
