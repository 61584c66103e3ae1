-- ===== src/Gateway.antt =====
-- The gateway, services/gateway: the REST API over the wallet service, its authentication and its
-- rate limits.
pub mod Http
pub mod RateLimit
pub mod Api
pub mod Accounts
pub mod Client
pub mod ClientIp
pub mod Tokens
pub mod Routes
mod Tests
