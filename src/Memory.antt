-- ===== src/Memory.antt =====
-- The frame allocator of memory/frame_alloc.c, and the address spaces of memory/paging.c.
pub mod Frames
pub mod Words
pub mod Paging
