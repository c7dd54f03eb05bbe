-- ===== src/LowLevel.antt =====
-- lib/lowlevel.c: the operations on forks and files that the other layers share, each over the
-- requests of the protocol. The state is the volume, with the requests made so far.
pub mod Locks
pub mod Transfer
pub mod Stored
pub mod Wrapped
pub mod Entry
pub mod Attr
pub mod Listing
pub mod Opening
pub mod Unguarded
pub mod Batches
pub mod Release
