-- ===== src/Publishing.antt =====
-- Publishing to platforms (internal/publishing): what a publisher records of a platform's answer.
pub mod Summary
pub mod Worker
pub mod Results
pub mod Claims
pub mod Totals
pub mod Failures
pub mod Policy
pub mod Jobs
pub mod Recovery
pub mod Picks
pub mod Process
pub mod Revival
pub mod Blockage
pub mod Settled
pub mod Templates
pub mod Blockers
pub mod Upserts
pub mod Prepare
pub mod Prepared
pub mod Gated
pub mod Schedule
pub mod Drafts
pub mod Edited
pub mod Unpublished
pub mod Verified
