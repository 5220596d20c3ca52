-- ===== src/Stablecoin.antt =====
-- sdk/src/stablecoin: account layouts, instruction builders and the client of the stablecoin program.
pub mod Constants
pub mod Accounts
pub mod Pda
pub mod Encode
pub mod Instructions
pub mod Client
