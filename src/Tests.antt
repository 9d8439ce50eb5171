-- ===== src/Tests.antt =====
-- Runs of the model on concrete inputs, and the theorems at such inputs. Prices are in cents.
mod Samples
mod Books
mod Engines
mod Events
mod Servers
mod Hashes
mod Latencies
mod Sockets
mod Directories
mod Registries
mod Traders
mod Snapshots
mod Dates
mod Markets
mod Watches
