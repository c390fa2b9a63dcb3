-- ===== src/Pipeline.antt =====
-- apps/api/src/validation/validation.pipeline.ts: `Run` has `ValidationPipeline.validate`, `Verdicts`
-- what its result means for `DecisionEngine.decide`, `Enforced`
-- the effect of a rule that is not satisfied, `Clean` that a request without failures is approved.
pub mod Run
pub mod Verdicts
pub mod Enforced
pub mod Clean
