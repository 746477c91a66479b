-- ===== src/Component.antt =====
-- The component of a host beside its simulation lock: its jobs, and the activities that enrol it, load
-- programs and configurations and ask for buffers.
pub mod State
pub mod Jobs
pub mod Activities
pub mod Requests
