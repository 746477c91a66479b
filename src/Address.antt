-- ===== src/Address.antt =====
-- api/megastructure/networkAddressTable.hpp and src/core/networkAddressTable.cpp: which client a
-- request for a type is sent to.
pub mod Tree
pub mod ClientIds
pub mod Tables
pub mod Build
pub mod Owners
pub mod Routes
pub mod Agreement
