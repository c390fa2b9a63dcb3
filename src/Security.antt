-- ===== src/Security.antt =====
-- apps/api/src/validation/security/security.validator.ts: the size, signature and content checks.
-- `Scan` has the walk over the parameters, `Validator` the checks; `Content` proves what a validation
-- says of the texts in the parameters.
pub mod Scan
pub mod Validator
pub mod Content
