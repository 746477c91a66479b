-- ===== src/Protocol.antt =====
-- src/protocol/megastructure.proto and api/protocol/protocol_helpers.hpp: the messages that hosts,
-- slaves (coordinators) and the master exchange.
mod Types
pub mod Helpers
pub use Types.*
