-- ===== src/Api.antt =====
-- The API as the pages reach it: the proxy route and the active-key routes of frontend/src/app/api, and
-- the clients of frontend/src/lib/api.
pub mod Headers
pub mod Proxy
pub mod Groth16
pub mod ActiveKey
pub mod Client
