-- ===== src/Tests.antt =====
-- The theorems at concrete inputs.
pub mod Codecs
pub mod Demo
pub mod Operator
pub mod Requests
pub mod Children
pub mod Plan
pub mod Start
pub mod Copying
pub mod Settled
pub mod Running
