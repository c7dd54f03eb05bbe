-- ===== src/Dsi.antt =====
-- lib/dsi.c: the session layer. Server holds the fields of `struct afp_server` that it uses; Frame
-- the header, and the bytes on the wire; Queue the requests that wait for their replies.
pub mod Server
pub mod Frame
pub mod Stream
pub mod Queue
pub mod Receive
pub mod Status
pub mod Versions
pub mod Calls
pub mod Turns
pub mod Pieces
pub mod Overrun
pub mod Pending
pub mod Waiters
