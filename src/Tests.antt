-- ===== src/Tests.antt =====
-- Runs of the model on small inputs, and the theorems at inputs that meet their hypotheses.
pub mod Scheduler
pub mod Switching
pub mod Files
pub mod Queue
pub mod Mail
pub mod Polling
pub mod Sessions
pub mod Smtp
pub mod Clients
pub mod Servers
pub mod Secure
pub mod Programs
