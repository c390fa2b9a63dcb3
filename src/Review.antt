-- ===== src/Review.antt =====
-- apps/api/src/workflow/review.service.ts: `Tickets` has the tickets and the operations, `Once` the
-- theorems on repeated submissions, `Trail` what a submission does to the audit trail.
pub mod Tickets
pub mod Once
pub mod Trail
