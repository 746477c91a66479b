-- ===== src/Tests.antt =====
-- Runs of the models on concrete data.
mod Lock
mod Routing
mod Owning
mod Queue
mod Address
mod Clients
mod Master
mod Generators
mod Reads
mod Locks
mod Codec
mod Python
mod Slave
mod Directory
mod Connections
mod Component
