-- ===== src/Tests.antt =====
-- Runs of the modelled code, and the theorems at concrete inputs.
pub mod Numbers
pub mod Sets
pub mod Units
pub mod Node
pub mod Bits
pub mod Paths
pub mod Events
pub mod Clients
pub mod Batches
pub mod Addresses
pub mod Banks
pub mod Stakes
pub mod Texts
pub mod Txs
pub mod Nfts
pub mod Wires
