-- ===== src/Examples.antt =====
-- Runs of the model at concrete inputs: the values that they use, the theorems at these values, and
-- the assertions of the unit tests under src/helpers that need no network.
pub mod Values
mod Addresses
mod Servers
mod Builds
mod Connections
mod Senders
mod Sessions
mod Searches
mod Streams
mod Lifetimes
