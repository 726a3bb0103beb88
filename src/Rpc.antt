-- ===== src/Rpc.antt =====
-- internal/rpc: what the program asks of bitcoin-core, and what it makes of the answers.
pub mod Codes
pub mod Amounts
pub mod SinceBlock
pub mod Client
pub mod Wallets
pub mod Calls
mod Tests
