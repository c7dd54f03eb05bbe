-- ===== src/Did.antt =====
-- lib/did.c: directory IDs of paths, with the cache of them.
pub mod Cache
pub mod Sound
pub mod Lookup
pub mod Walk
