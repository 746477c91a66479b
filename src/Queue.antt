-- ===== src/Queue.antt =====
-- api/megastructure/queue.hpp, api/megastructure/activity.hpp and src/core/queue.cpp: the queue of
-- activities that the master, the slaves and the components share.
mod Activities
pub mod Runs
pub mod Completion
pub mod Delivery
unfoldable pub use Activities.*
