-- ===== src/Replies.antt =====
-- The reply handlers that store data for their callers: lib/proto_replyblock.c and the replies to
-- the listings of a directory in lib/proto_directory.c.
pub mod Block
pub mod Layout
pub mod Read
pub mod Packet
pub mod Lists
pub mod Volumes
pub mod VolumeParams
pub mod Entries
pub mod Handlers
