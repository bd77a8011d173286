-- ===== src/Storage.antt =====
-- crates/agent-core/src/storage.rs: the layout of the files, the ids and the metadata.
pub mod Ids
pub mod Layout
pub mod Metadata
pub mod Files
pub mod Records
