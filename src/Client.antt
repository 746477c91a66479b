-- ===== src/Client.antt =====
-- The client side of the simulation locks: the program of a host that asks other components for
-- locks and reads, and gives the locks back.
pub mod Program
pub mod Unlocks
pub mod Cycles
pub mod Traits
pub mod Reads
pub mod Consistent
pub mod Once
pub mod Layouts
pub mod Blocking
pub mod Buffers
pub mod Codec
pub mod RoundTrip
