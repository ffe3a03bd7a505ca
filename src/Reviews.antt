-- ===== src/Reviews.antt =====
-- internal/reviews/service.go: a task is evaluated when its processing has ended, and an operator acts on the
-- tasks that wait for a review. `publications` stands for PrepareApprovedTaskTx of internal/publishing,
-- which runs inside the transaction that approves a task.
pub mod Rules
pub mod Evaluate
pub mod Reprocess
pub mod Act
pub mod Metadata
pub mod Verdicts
pub mod Steps
pub mod Restarts
pub mod Edits
pub mod Published
