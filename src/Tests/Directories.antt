-- ===== src/Tests/Directories.antt =====
-- The client directory at sample clients. The hash of the tests is the password itself.
use Prim.Native.String.{String}
use stock_market_trading_sim.Common.{◌≡◌, refl, none}
use stock_market_trading_sim.Common.Keys.{symbol_key}
use stock_market_trading_sim.Common.Maps.{lookup, emplace, insert}
use stock_market_trading_sim.Auth.{
  ClientDirectory, empty_directory, register_client, authenticate, check_password, AuthOutcome,
}
use stock_market_trading_sim.Auth.Accounts.{
  IsSound, opened, registers, authenticates, Session-IsSound,
}
use stock_market_trading_sim.Persistence.Accounts.{ComesBack, Session-ComesBack}
use stock_market_trading_sim.Auth.LoginRoundTrip.{Follows, register_client-Follows}

abbrev plain : String → String → String
plain salt password = password

abbrev pub one_client : ClientDirectory
one_client = (register_client plain "s1" "t1" "ann" "secret" empty_directory).1

wrong_password : (authenticate plain "t2" "ann" "guess" one_client).0 ≡ AuthOutcome.wrong_password
unfolding register_client authenticate check_password lookup emplace insert
wrong_password = refl

Session-IsSound_example : IsSound (authenticate plain "t2" "ann" "secret" one_client).1
Session-IsSound_example =
    Session-IsSound plain
      (authenticates "t2" "ann" "secret" (registers "s1" "t1" "ann" "secret" opened))

free_name : lookup "bob" one_client.accounts ≡ none
unfolding register_client lookup emplace insert
free_name = refl

free_token : lookup "t3" one_client.tokens ≡ none
unfolding register_client lookup emplace insert
free_token = refl

register_client-Follows_example : Follows plain "s2" "t3" "bob" "hidden" one_client
register_client-Follows_example =
    register_client-Follows plain "s2" "t3" "bob" "hidden" one_client free_name free_token

Session-ComesBack_example : ComesBack one_client
Session-ComesBack_example = Session-ComesBack plain (registers "s1" "t1" "ann" "secret" opened)
