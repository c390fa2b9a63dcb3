-- ===== src/Integration.antt =====
-- apps/api/src/integration/executor.service.ts, apps/api/src/integration/notifier.service.ts and
-- apps/api/src/ai/classifier.service.ts: what a job hands to the outside.
pub mod Classifier
pub mod Executor
pub mod Notifier
