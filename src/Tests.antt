-- ===== src/Tests.antt =====
-- The theorems on concrete inputs.
pub mod Attempts
pub mod Context
pub mod Events
pub mod Scheduler
pub mod Policy
pub mod Delivery
pub mod Publisher
pub mod Protocol
