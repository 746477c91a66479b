-- ===== src/Master.antt =====
-- src/master: the coordinator of the slaves, with its clients, its activities and the routing of
-- the eg protocol between the slaves.
pub mod Clients
pub mod Directory
pub mod State
pub mod Route
pub mod Events
pub mod Enroll
pub mod Contest
pub mod Gather
pub mod Connections
pub mod Dropping
pub mod Answers
pub mod Asking
