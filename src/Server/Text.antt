-- ===== src/Server/Text.antt =====
-- The tokens of a command line, in Src_Simulation/src/net/simulation_server.cpp. `std::stod` and its
-- like are arguments, with `none` where they throw.
use Prim.Native.Char.{Char, code}
use Prim.Native.String
use Prim.Native.String.{String}
use stock_market_trading_sim.Common.{
  ℕ, suc, zero, Bool, ◌||◌, ◌&&◌, Option, none, some, List, [], ◌∷◌, eqb, leb, length,
  if◌then◌else◌,
}
use stock_market_trading_sim.Common.Int.{ℤ}
use stock_market_trading_sim.Common.Keys.{◌==◌, symbol_key}
use stock_market_trading_sim.Common.Maps.{Map, lookup, insert}
use stock_market_trading_sim.Types.{OrderId, OrderKind}

pub record Parsers (P : Type 0) : Type 0 where
  pub stod : String → Option P
  pub stoll : String → Option ℤ
  pub stoull : String → Option OrderId

-- The white space at which `>>` ends a token.
abbrev pub is_space : ℕ → Bool
is_space c = eqb c 32 || (leb 9 c && leb c 13)

abbrev pub push : String → Char → String
push s c = String.◌++◌ s (String.◌∷◌ c String.[])

abbrev pub flush_token : String → List String → List String
flush_token token rest = if token == "" then rest else token ∷ rest

-- The loop of `split`, over the characters, with the token begun.
unfoldable pub split_from : String → String → List String
split_from token String.[] = flush_token token []
split_from token (String.◌∷◌ c s) =
    let ended = flush_token token (split_from "" s) in
    let longer = split_from (push token c) s in if is_space (code c) then ended else longer

unfoldable pub split : String → List String
unfolding split_from
split line = split_from "" line

-- `find('=')` and the two `substr`: what is before and behind the first sign.
unfoldable pub cut_at_sign : String → String → Option (String × String)
cut_at_sign before String.[] = none
cut_at_sign before (String.◌∷◌ c s) =
    let later = cut_at_sign (push before c) s in if eqb (code c) 61 then some (before, s) else later

abbrev pub with_pair : Option (String × String) → Map String String → Map String String
with_pair none kv = kv
with_pair (some (key, value)) kv = insert key value kv

-- `parse_kv`, over the tokens from `start` on.
unfoldable pub parse_kv : List String → Map String String → Map String String
parse_kv [] kv = kv
parse_kv (token ∷ tokens) kv = parse_kv tokens (with_pair (cut_at_sign "" token) kv)

-- `kv_double` and `kv_int`, with the parser of the value.
unfoldable pub kv_value : {A : Type 0} → (String → Option A) → Map String String → String → Option A
kv_value parse kv key = elim (lookup key kv) [ none ↦ none | some text ↦ parse text ]

unfoldable pub parse_kind : String → Option OrderKind
parse_kind text =
    if text == "MARKET"
    then some OrderKind.market
    else if text == "LIMIT"
    then some OrderKind.limit
    else if text == "STOP"
    then some OrderKind.stop
    else if text == "LIMIT_STOP"
    then some OrderKind.limit_stop
    else none

-- `tokens[i]`, where there is one.
abbrev pub token_at : List String → ℕ → String
token_at [] i = ""
token_at (token ∷ tokens) zero = token
token_at (token ∷ tokens) (suc i) = token_at tokens i

-- `command == name`, and with a number of tokens.
abbrev pub named : List String → String → Bool
named tokens name = token_at tokens 0 == name

abbrev pub sized : List String → String → ℕ → Bool
sized tokens name n = named tokens name && eqb (length tokens) n
