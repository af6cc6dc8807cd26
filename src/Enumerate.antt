-- ===== src/Enumerate.antt =====
-- core/src/enumerate: crash points, the states at each of them, and the sample that is run.
pub mod States
pub mod Hash
pub mod CrashPoints
pub mod Sample
pub mod Comments
