-- ===== src/Upload.antt =====
-- Staging a proof on chain: the hook-payload account of the zksettle program and the SDK's chunked
-- upload to it.
pub mod Program
pub mod Chunks
pub mod Client
