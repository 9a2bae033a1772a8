-- ===== src/Service.antt =====
-- gacha_engine_service/main.py: the pull workflow (the claim, the spend, the commit with retries, the
-- publication, the refund), the recovery worker's passes, and the summaries of operations.
pub mod Errors
pub mod World
pub mod Names
pub mod Commit
pub mod Claimed
pub mod Existing
pub mod Recovery
pub mod Summary
pub mod Inversion
pub mod Outcomes
pub mod Performed
pub mod Delivered
pub mod Quiet
pub mod Charged
pub mod Refused
pub mod Verified
pub mod Tests
mod VerifiedTests
mod LockTests
