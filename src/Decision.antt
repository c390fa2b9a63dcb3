-- ===== src/Decision.antt =====
-- apps/api/src/decision/decision.engine.ts: `DecisionEngine.decide`. `Scan` has the risk
-- contributions of the request, the scan of the failed checks for the actions of their rules and the
-- verdict; `Report` has the factors and the summary; `Engine` puts them together.
pub mod Scan
pub mod Report
pub mod Engine
pub mod Verdicts
pub mod Risk
