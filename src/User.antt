-- ===== src/User.antt =====
-- cpu/user_mode.c, cpu/user_mode.h and cpu/user_error.h: the user processes. `Store` has the state,
-- `Access` the check of a user pointer, `Table` the process table, `Fds` the descriptors, `Stack`
-- the first stack of a process, `Image`, `Page` and `Segments` its pages, and `Run` how it starts and ends.
pub mod Store
pub mod Access
pub mod Table
pub mod Fds
pub mod Stack
pub mod Image
pub mod Page
pub mod Segments
pub mod Run
pub mod Start
pub mod Builtin
pub mod Allowed
pub mod Found
pub mod Ends
pub mod Exits
pub mod Filled
pub mod Mapped
pub mod Loads
pub mod Reaped
pub mod Words
pub mod Strings
pub mod Arguments
