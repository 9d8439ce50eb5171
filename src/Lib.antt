-- ===== src/Lib.antt =====
-- Verification library of the stock market trading simulator: the matching engine of
-- Src_Simulation, modelled as functions on its state, with proofs of what makes it correct.
--
-- The program. A `MatchingEngine` (Src_Simulation/include/matching_engine.hpp and
-- src/matching_engine.cpp) holds one order book for each symbol, the clients' portfolios, the last
-- traded prices, a registry of orders that are not yet in a book, and counters; it publishes events on
-- a notification bus. `submit_order` checks a request, builds an order and either matches it at once or
-- lets it wait; `try_release_waiting_orders` takes waiting orders into the books or drops them.
--
-- Which file models what. The paths are below Src_Simulation.
-- - Types: include/types.hpp. Orders, requests, trades and results, with the source's fields.
-- - OrderBook and its children: include/order_book.hpp and src/order_book.cpp. A map from prices to
--   queues is the list of its entries in the order of its comparison. `match_order` is
--   `OrderBook::match`; `fill_queue` and `match_levels` are its inner and outer loop, for either side;
--   Cancel has the two `cancel`; Views has `best_bid`, `best_ask`, `snapshot` and `resting_orders`.
--   Fills, Rest, Invariant, Validity, Conservation, Priority, Trades, Cancellation, Shrinking and Depth
--   hold the proofs.
-- - Registry: include/order_registry.hpp and src/order_registry.cpp, with Registry/Scanning and
--   Registry/Consistency for the proofs.
-- - Engine: include/matching_engine.hpp and src/matching_engine.cpp. Engine has the state and its
--   parts, Orders the risk check and `build_order`, Matching `match_and_settle`, Submit `submit_order`,
--   Release the release of waiting orders and the cancellations. The proofs stand in Engine/Holdings,
--   Frames, Books, Reach and Uniqueness and in Engine/Submit/.
-- - MarketData: include/market_data.hpp and src/market_data.cpp, with MarketData/Candles for the proofs.
-- - Notification: include/notification.hpp. Notification has the events, Notification/Bus the queue, the
--   subscribers and the worker thread, whose loop is cut into the sections that run under one lock;
--   Notification/Bus/Delivery has the proofs.
-- - Auth: include/net/auth.hpp and src/net/auth.cpp, with the hash and the random salts and tokens as
--   arguments; Auth/Accounts and Auth/LoginRoundTrip have the proofs.
-- - Protocol: src/net/protocol.cpp. recv and send are the operations of Protocol.Socket, and
--   Protocol.Stream.IsStream is what is documented of them for a connection that stays up.
--   Protocol/Header, Stream, Frames and Ending have the proofs.
-- - Persistence: src/net/persistence.cpp. The values that `save` writes, the import of accounts
--   and the second pass of `load`; the text of the file is left out. Persistence/Accounts, Balances, Prices,
--   Grants and Restart have the proofs.
-- - Sha256: include/net/sha256.hpp. Sha256 is the source's streaming hash; Sha256/Stream, Padding and
--   Reference cut its input into blocks, Sha256/Standard relates it to a definition of its own after
--   FIPS 180-4, and Sha256/Hex is about to_hex.
-- - Server: src/net/simulation_server.cpp. Server/Text has the tokens and pairs of a command line,
--   Commands what a command does, Connection the rounds of a connection and of the watcher. An answer
--   is a case of Commands.Response, with the values that its text shows. Server/Served, Anonymous and
--   Ordering have the proofs.
-- - Bots: include/bot.hpp and src/bot.cpp. Bots has what the bots share and the noise trader,
--   Bots/Momentum and Bots/MarketMaker the other two. The random numbers are the parameter
--   Bots.Random, of which Bots.IsUniform states what is documented. Steps, Requests, Window and Memory
--   have the proofs.
-- - Sql: the times of Src_SQL/utility.cpp and the expiration check of Src_SQL/server.cpp, over localtime
--   and stoi of the standard libraries. Sql/Times, Dates and Expiry have the proofs.
-- - Sql/Database, Client, Market, Trading, Loops and Watcher: the tables of Src_SQL/database_management.cpp
--   and order.cpp, the accounts of client.cpp, the books, transactions and loops of market.cpp and the
--   watcher of server.cpp. SQLite, the random ids and the clock are Database.Environment. A loop over the
--   two queues of an action is given as many rounds as they have orders (sweep_orders), which Sql/Ending shows to
--   be enough; a loop that draws an id any number (redraw). The other children of Sql have the proofs:
--   Supply and Tables what a step adds and keeps, Transactions, Effects and Quantities a transaction,
--   Resting and Priority a queue, Rounds, Sweeping and Ending the loop, Invariant, Continuous, Fixing,
--   Places, Entering and Reach the market, Waiting, Watching and Passes the watcher, Settlement and
--   Shares the portfolios.
-- - Metrics, Portfolio: the headers of those names in Src_Simulation/include.
-- - Common: shared names, lists, integers, and maps as association lists. Double: the interface of the
--   type `double`. Tests: runs on concrete inputs, and the theorems at such inputs.
--
-- Choices. `double` is a parameter: a type with constants, comparisons and operations (Double.Double).
-- Where a theorem needs more, it takes the laws of IEEE comparisons that it uses (Double.IsOrdered);
-- Double.Cents is a type with a NaN and infinities that meets them. Order ids and counters are 64-bit words
-- that wrap; quantities, holdings and client ids are unbounded. The clock is an argument (Engine.Readings). The
-- order in which an unordered map is walked is the order of the association list, and theorems range
-- over all of them. An exception is `none`. Where a
-- theorem of Sql needs new ids, the numbers that the run may draw (random_numbers) are different and those to
-- come are in no table (Sql.Supply.IsSupply), and as many are left as the theorem says: the code that draws
-- an id does not get over a taken one.
-- Every loop is a structural recursion, on a queue, a map's
-- entries or a list, so none needs fuel, but for recv_exact and send_exact, which are given as
-- many rounds as bytes are wanted (Protocol.Transfer.spent marks that they were too few), and the two
-- loops of Sql that are named above.
--
-- Not modelled. Interleavings of calls of the engine: each book, the registry and each map has its
-- mutex, and a call is modelled as it runs alone. Logging and text reports; the simulation driver
-- and its configuration; sockets, threads, the server's timers and the clients' programs; the spelling of
-- answers, and the text of saved states, its writing and its reading; of Src_SQL the creation and removal of clients and actions, the texts
-- of reports, the sessions and commands of its server, encryption, and the programs of its clients.
pub mod Common
pub mod Double
pub mod Types
pub mod OrderBook
pub mod Registry
pub mod Metrics
pub mod Portfolio
pub mod Notification
pub mod Engine
pub mod Auth
pub mod Persistence
pub mod Sha256
pub mod Bots
pub mod Server
pub mod Protocol
pub mod Sql
pub mod MarketData
pub mod Tests
