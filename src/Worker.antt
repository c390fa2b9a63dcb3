-- ===== src/Worker.antt =====
-- apps/api/src/common/queue: `Dispatch` and `Run` are `processJob` of job.worker.service.ts, `Enforce` is
-- what the execution mode means for it, `Queue` is job.queue.service.ts and the loop of the worker.
-- The others are on what a job leaves in the audit table and on the webhooks.
pub mod Dispatch
pub mod Enforce
pub mod Run
pub mod Queue
pub mod Settled
pub mod Chained
pub mod Rows
pub mod Webhooks
