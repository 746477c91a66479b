-- ===== src/Generators.antt =====
-- src/generators, of which the network analysis decides what the generated code does: which data is
-- in which process and which bit of the set of reads stands for which datum.
pub mod Network
pub mod Ranges
pub mod Bits
