-- ===== src/Slave.antt =====
-- src/slave: a coordinator of the hosts of one machine, between those hosts and the master.
pub mod Hosts
pub mod Shared
pub mod Route
pub mod State
pub mod Enrolment
pub mod Load
pub mod Program
pub mod Commands
pub mod Config
pub mod Loads
pub mod Loading
pub mod Missing
pub mod Remap
pub mod Fresh
pub mod Partition
pub mod Processes
