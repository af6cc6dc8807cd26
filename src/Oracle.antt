-- ===== src/Oracle.antt =====
-- core/src/oracle: the acknowledgement log, the verdict on a recovery, and the signatures of findings.
pub mod AckLog
pub mod Verdict
pub mod Dedup
pub mod Recover
pub mod Reproducer
