-- ===== src/Tests.antt =====
-- The theorems at concrete inputs: a small server and volume, and each theorem applied to them.
mod Data
mod Wires
mod Volumes
mod Files
mod Sessions
mod Received
