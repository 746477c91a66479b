-- ===== src/Lock.antt =====
-- api/megastructure/component.hpp and src/component: the simulation lock of a component, by which
-- the hosts read and write its state between two cycles.
pub mod State
pub mod Component
pub mod Manager
pub mod Requests
pub mod Counts
pub mod Phases
pub mod Starts
pub mod Outcomes
pub mod Entries
pub mod Openings
pub mod System
pub mod Service
pub mod Invariant
pub mod Exclusion
pub mod Replies
pub mod Repeats
pub mod Overlaps
