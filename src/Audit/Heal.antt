-- ===== src/Audit/Heal.antt =====
-- `updateRecordAndRecalculate` of apps/api/src/audit/audit.service.ts: the rows from the changed one
-- on are hashed anew. `Forward` sets the links to the next rows aside, which are not verified; `Loop`
-- is the loop as a function of the rows; `Prefix` finds the rows and the hash that it starts with;
-- `Update` is the result.
pub mod Forward
pub mod Loop
pub mod Prefix
pub mod Update
