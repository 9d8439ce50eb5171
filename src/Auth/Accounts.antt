-- ===== src/Auth/Accounts.antt =====
-- What the client directory promises of accounts and tokens (Src_Simulation/src/net/auth.cpp).
use Prim.Native.String.{String}
use stock_market_trading_sim.Common.{
  ◌+◌, ◌<◌, ◌≡◌, ◌≢◌, ◌⊎◌, refl, not, Option, none, some, arith, either, Option-cases, inl, inr,
}
use stock_market_trading_sim.Common.Keys.{◌==◌, symbol_key}
use stock_market_trading_sim.Common.Maps.{
  Map, lookup, insert, emplace, lookup-insert, lookup-emplace,
}
use stock_market_trading_sim.Types.{ClientId}
use stock_market_trading_sim.Auth.{
  Account, AccountRecord, ClientDirectory, empty_directory, AuthOutcome, register_client,
  check_password, authenticate, import_account, account_of,
}

-- Client ids are below the next one, and no two usernames share an id.
pub record IsSound (d : ClientDirectory) : Type 0 where
  pub below :
      (u : String) (a : Account) → lookup u d.accounts ≡ some a → a.client_id < d.next_client_id
  pub distinct :
      (u v : String) (a b : Account)
      → lookup u d.accounts ≡ some a
      → lookup v d.accounts ≡ some b
      → a.client_id ≡ b.client_id
      → u ≡ v
  pub issued : (t : String) (c : ClientId) → lookup t d.tokens ≡ some c → c < d.next_client_id

-- Where an entry comes from after an `emplace` and after a store.
emplace_cases :
    {V : Type 0} (key other : String) (new : V) (m : Map String V) (x : V)
    → lookup other (emplace key new m) ≡ some x
    → (key ≡ other) × (lookup key m ≡ none) × (x ≡ new) ⊎ (lookup other m ≡ some x)
emplace_cases key other new m x h =
    ground (arith, lookup-emplace key other new m, symbol_key.same_iff key other)

pub insert_cases :
    {V : Type 0} (key other : String) (new : V) (m : Map String V) (x : V)
    → lookup other (insert key new m) ≡ some x
    → (key ≡ other) × (x ≡ new) ⊎ (key ≢ other) × (lookup other m ≡ some x)
insert_cases key other new m x h =
    ground (arith, lookup-insert key other new m, symbol_key.same_iff key other)

-- An account under a new name.
module _ (d : ClientDirectory) (v : IsSound d) (name : String) (fresh : Account)
    (k : fresh.client_id ≡ d.next_client_id) where
  emplace-below :
      (u : String) (a : Account)
      → lookup u (emplace name fresh d.accounts) ≡ some a
      → a.client_id < d.next_client_id + 1
  emplace-below u a h = ground (arith, emplace_cases name u fresh d.accounts a h, v.below u a)

  emplace-distinct :
      (u w : String) (a b : Account)
      → lookup u (emplace name fresh d.accounts) ≡ some a
      → lookup w (emplace name fresh d.accounts) ≡ some b
      → a.client_id ≡ b.client_id
      → u ≡ w
  emplace-distinct u w a b h g e = ground (
    arith,
    emplace_cases name u fresh d.accounts a h,
    emplace_cases name w fresh d.accounts b g,
    v.below u a,
    v.below w b,
    v.distinct u w a b,
  )

emplace-issued :
    (d : ClientDirectory) (token : String) (id n : ClientId)
    → ((t : String) (c : ClientId) → lookup t d.tokens ≡ some c → c < n)
    → id < n
    → (t : String) (c : ClientId) → lookup t (emplace token id d.tokens) ≡ some c
    → c < n
emplace-issued d token id n v k t c h = ground (arith, emplace_cases token t id d.tokens c h, v t c)

module _ (hash : String → String → String) where
  register_new :
      (salt token username password : String) (d : ClientDirectory)
      → lookup username d.accounts ≡ none
      → IsSound d
      → IsSound (register_client hash salt token username password d).1
  unfolding register_client
  register_new salt token username password d h v = rw h (record {
    below = emplace-below d v username _ refl;
    distinct = emplace-distinct d v username _ refl;
    issued =
        emplace-issued d token d.next_client_id (d.next_client_id + 1)
          (λ t. λ c. λ g. omega (arith, v.issued t c g)) (omega arith);
  })

  register_client-IsSound :
      (salt token username password : String) (d : ClientDirectory)
      → IsSound d
      → IsSound (register_client hash salt token username password d).1
  unfolding register_client
  register_client-IsSound salt token username password d v =
      elim (Option-cases (lookup username d.accounts)) [
        | inl h ↦ register_new salt token username password d h v
        | inr (a, h) ↦ rw (h, register_client) v
      ]

  check_password-IsSound :
      (o : Option Account) (token username password : String) (d : ClientDirectory)
      → lookup username d.accounts ≡ o
      → IsSound d
      → IsSound (check_password hash o token password d).1
  unfolding check_password
  check_password-IsSound none token username password d h v = v
  check_password-IsSound (some a) token username password d h v =
      either {A = AuthOutcome × ClientDirectory} (λ r. IsSound r.1)
        (not (hash a.salt password == a.password_hash)) v
        (record {
          below = v.below;
          distinct = v.distinct;
          issued =
              emplace-issued d token a.client_id d.next_client_id v.issued (v.below username a h);
        })

  import_account-IsSound :
      (r : AccountRecord) (d : ClientDirectory)
      → ((u : String) (a : Account)
          → lookup u d.accounts ≡ some a
          → a.client_id ≡ r.record_id
          → u ≡ r.username)
      → IsSound d
      → IsSound (import_account r d)
  unfolding import_account
  import_account-IsSound r d own v = record {
    below = λ u. λ a.
        λ h. ground (arith, insert_cases r.username u (account_of r) d.accounts a h, v.below u a);
    distinct = λ u. λ w. λ a. λ b. λ h. λ g. λ e. ground (
      arith,
      insert_cases r.username u (account_of r) d.accounts a h,
      insert_cases r.username w (account_of r) d.accounts b g,
      v.distinct u w a b,
      own u a,
      own w b,
    );
    issued = λ t. λ c. λ h. ground (arith, v.issued t c h);
  }

  -- The states of the directory. Imports are of records whose id is of no other username.
  pub data Session : ClientDirectory → Type 0 where
    opened : Session empty_directory
    registers :
        {d : ClientDirectory} (salt token username password : String)
        → Session d
        → Session (register_client hash salt token username password d).1
    authenticates :
        {d : ClientDirectory} (token username password : String)
        → Session d
        → Session (authenticate hash token username password d).1
    imports :
        {d : ClientDirectory} (r : AccountRecord)
        → ((u : String) (a : Account)
            → lookup u d.accounts ≡ some a
            → a.client_id ≡ r.record_id
            → u ≡ r.username)
        → Session d
        → Session (import_account r d)

  -- After registrations, authentications and imports of records whose id is of no other username, in any order, every client id is below the next one, no two usernames share an id, and every token resolves to an id below the next one.
  pub Session-IsSound : {d : ClientDirectory} → Session d → IsSound d
  unfolding lookup authenticate
  Session-IsSound opened = record {
    below = λ u. λ a. λ h. absurd (ground (arith, h));
    distinct = λ u. λ w. λ a. λ b. λ h. absurd (ground (arith, h));
    issued = λ t. λ c. λ h. absurd (ground (arith, h));
  }
  Session-IsSound (registers {d} salt token username password s) =
      register_client-IsSound salt token username password d (Session-IsSound s)
  Session-IsSound (authenticates {d} token username password s) =
      check_password-IsSound (lookup username d.accounts) token username password d refl
        (Session-IsSound s)
  Session-IsSound (imports {d} r own s) = import_account-IsSound r d own (Session-IsSound s)
