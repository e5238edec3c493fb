-- ===== src/Operator/Tests.antt =====
-- Runs of the operator on concrete inputs; the parameters are small programs here.
pub mod Scaled
pub mod Judged
pub mod Built
pub mod Passed
pub mod Asked
pub mod Wired
pub mod Collected
