-- ===== src/Compliance.antt =====
-- apps/api/src/validation/compliance/rule.engine.ts: the evaluation of the compliance rules.
-- `Params` has the normalisation of the parameters, `RegF` the rules on contacts, `Conditions` the
-- rules with a list of conditions, `Checkers` the others, `Engine` the loop over the rules,
-- `Outcome` what it returns, `Sanctions` what the list of sanctions refuses, by the texts of `Trim`.
pub mod Params
pub mod RegF
pub mod Conditions
pub mod Checkers
pub mod Engine
pub mod Outcome
pub mod Trim
pub mod Sanctions
