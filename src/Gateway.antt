-- ===== src/Gateway.antt =====
-- The entry of a request: `Parser` is apps/api/src/interceptors/parsing/parser.service.ts, `Intercept`
-- and `Status` are apps/api/src/api/gateway.controller.ts, `Steps` has the states that these, the worker
-- and the reviews reach.
pub mod Parser
pub mod Intercept
pub mod Status
pub mod Polling
pub mod Received
pub mod Steps
pub mod Known
pub mod Sound
pub mod Drained
pub mod Admin
