-- ===== src/StaticFiles.antt =====
-- src/static_files.c and include/static_files.h.
pub mod Errors
pub mod Paths
pub mod Decoding
pub mod Normal
pub mod Idempotent
pub mod Climbing
pub mod FileSystem
pub mod Resolve
pub mod Files
pub mod Within
pub mod Located
pub mod Confined
pub mod Descriptors
pub mod Statuses
