-- ===== src/OverlayFs.antt =====
-- The file system of macOS for views, over FUSE: crates/agent-overlayfs/src/main.rs.
pub mod Mount
pub mod Fallback
pub mod Inodes
pub mod Effect
pub mod Steps
pub mod Keeps
pub mod Attributes
pub mod Storage
pub mod Directory
pub mod Requests
pub mod OpenFiles
pub mod Handlers
pub mod Session
pub mod Lower
pub mod Looking
