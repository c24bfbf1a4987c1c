-- ===== src/Tests.antt =====
-- Tests of the models on concrete data, and the theorems at concrete arguments.
pub mod Filters
pub mod Stores
pub mod Payments
pub mod Messages
pub mod InsertionSort
pub mod Connections
pub mod Databases
pub mod Datagrams
pub mod Sessions
pub mod Selection
pub mod Connecting
pub mod Reversals
pub mod Exits
pub mod Files
pub mod Endings
pub mod Transfers
pub mod Publication
