-- ===== src/Tests/Servers.antt =====
-- The commands of connections at sample lines.
use Prim.Native.String.{String}
use stock_market_trading_sim.Common.{◌≡◌, refl, true, none, some, List, [], ◌∷◌, if◌then◌else◌}
use stock_market_trading_sim.Common.Int.{pos}
use stock_market_trading_sim.Common.Keys.{◌==◌, symbol_key}
use stock_market_trading_sim.Double.Cents.{Cents, num, cents_double, Cents-IsOrdered}
use stock_market_trading_sim.Common.Maps.{insert}
use stock_market_trading_sim.Auth.{empty_directory}
use stock_market_trading_sim.Auth.Accounts.{IsSound}
use stock_market_trading_sim.Engine.Books.{BooksValid}
use stock_market_trading_sim.Server.Text.{Parsers, split, parse_kv, cut_at_sign}
use stock_market_trading_sim.Server.Commands.{handle_order_command, dispatch_command}
use stock_market_trading_sim.Server.Connection.{World, Peer, Inbound, handle_message}
use stock_market_trading_sim.Server.Served.{opens, rounds, Served-IsSound}
use stock_market_trading_sim.Server.Anonymous.{Harmless, handle_message-Harmless}
use stock_market_trading_sim.Server.Ordering.{
  Handled, handle_order_command-Handled, dispatch_command-anyone,
}
use stock_market_trading_sim.Tests.Samples.{clock}
use stock_market_trading_sim.Tests.Engines.{opened, opened-Reach}

-- Parsers of the few numbers that the lines have.
abbrev parsers : Parsers Cents
parsers = record {
  stod = λ s. if s == "101" then some (num (pos 101)) else none;
  stoll = λ s. if s == "10" then some (pos 10) else none;
  stoull = λ s. if s == "1" then some 1 else none;
}

abbrev plain : String → String → String
plain salt password = password

abbrev sent : String → Inbound
sent line = record { text = line; clock = clock; salt = "s"; token = "t"; delivered = true }

abbrev fresh_world : World Cents
fresh_world = record {
  directory = empty_directory;
  engine = opened;
  market = record { bucket_size = 60; state = [] };
}

words : split " ORDER  BUY\tACME " ≡ "ORDER" ∷ "BUY" ∷ "ACME" ∷ []
unfolding split
words = refl

pairs : parse_kv ("PRICE=101" ∷ "odd" ∷ "A=b=c" ∷ []) [] ≡ ("PRICE", "101") ∷ ("A", "b=c") ∷ []
unfolding parse_kv cut_at_sign insert
pairs = refl

Served-IsSound_example :
    BooksValid
      (handle_message plain parsers Peer.anonymous
        (sent "REGISTER ann pw")
        fresh_world).world.engine.books
    × IsSound
        (handle_message plain parsers Peer.anonymous
          (sent "REGISTER ann pw")
          fresh_world).world.directory
Served-IsSound_example =
    Served-IsSound plain parsers Cents-IsOrdered
      (rounds Peer.anonymous (sent "REGISTER ann pw") (opens fresh_world.market opened-Reach))

handle_message-Harmless_example :
    Harmless plain parsers fresh_world
      (handle_message plain parsers Peer.anonymous (sent "REGISTER ann pw") fresh_world)
handle_message-Harmless_example =
    handle_message-Harmless plain parsers (sent "REGISTER ann pw") fresh_world

abbrev order_line : List String
order_line = "ORDER" ∷ "SELL" ∷ "ACME" ∷ "10" ∷ "LIMIT" ∷ "PRICE=101" ∷ []

handle_order_command-Handled_example :
    Handled parsers clock 1 order_line opened
      (handle_order_command parsers clock 1 order_line opened)
handle_order_command-Handled_example =
    handle_order_command-Handled parsers clock 1 order_line opened

abbrev cancel_line : List String
cancel_line = "CANCEL" ∷ "1" ∷ "ACME" ∷ []

dispatch_command-anyone_example :
    dispatch_command parsers clock 1 cancel_line fresh_world.market opened
    ≡ dispatch_command parsers clock 2 cancel_line fresh_world.market opened
dispatch_command-anyone_example =
    dispatch_command-anyone parsers clock 1 2 cancel_line fresh_world.market opened refl refl
