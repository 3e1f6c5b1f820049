-- ===== src/Vfs.antt =====
-- fs/vfs.c: the table of open files over the file system, and its operations.
pub mod Flags
pub mod Files
pub mod Calls
pub mod Invariant
pub mod Opening
pub mod Reachable
pub mod Handles
pub mod Access
