-- ===== src/Audit.antt =====
-- apps/api/src/audit/audit.service.ts: the audit trail, a table of rows that are chained by hashes.
-- `Row` has a row and its hash, `Store` the queries on the table, `Service` the operations, each run
-- whole under the mutex. The other children prove: `Verify` what a verified chain is, `Append` that
-- `record` keeps it, `Heal` and `Content` what `updateRecordAndRecalculate` does to it.
-- `Distinct`, `Others` and `Trail` are on the identifiers of the rows and on trails as the services find
-- them.
pub mod Row
pub mod Store
pub mod Service
pub mod Verify
pub mod Append
pub mod Heal
pub mod Altered
pub mod Tamper
pub mod Content
pub mod Distinct
pub mod Others
pub mod Trail
