-- ===== src/Attempts.antt =====
-- src/quantum_entanglement/attempts.py: invocation jobs, their leases and attempts.
pub mod Rows
pub mod Life
pub mod Enqueue
pub mod Lease
pub mod Owner
pub mod Recover
pub mod Claim
pub mod Once
