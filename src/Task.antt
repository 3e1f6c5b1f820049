-- ===== src/Task.antt =====
-- task/task.c: the tasks and their round-robin ring.
pub mod Store
pub mod Calls
pub mod Ring
pub mod Schedule
pub mod Add
pub mod Remove
