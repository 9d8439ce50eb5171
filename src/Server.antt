-- ===== src/Server.antt =====
-- Src_Simulation/include/net/simulation_server.hpp and src/net/simulation_server.cpp: the commands of the
-- clients. Text has the tokens, Commands what a command does, Connection the rounds of a connection.
pub mod Text
pub mod Commands
pub mod Connection
pub mod Served
pub mod Anonymous
pub mod Ordering
