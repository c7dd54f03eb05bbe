-- ===== src/MidLevel.antt =====
-- lib/midlevel.c: the operations on paths, over the requests and the state of a volume. The guards
-- of an operation stand in the order of the source.
pub mod Guards
pub mod Privs
pub mod Create
pub mod Remove
pub mod Change
pub mod Rename
pub mod Opened
pub mod Content
pub mod Written
pub mod Links
pub mod Closing
pub mod Refused
pub mod ReadOnly
pub mod Metadata
