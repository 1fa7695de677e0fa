-- ===== src/Tests.antt =====
-- Runs of the models at concrete inputs, and the theorems applied there.
mod Stack
mod Eviction
mod Metadata
mod Data
mod Remote
mod Rpc
mod Async
mod Files
mod Nfs
mod Descriptors
mod Dir
mod Options
