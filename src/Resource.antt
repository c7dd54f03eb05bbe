-- ===== src/Resource.antt =====
-- lib/resource.c: the names under `.AppleDouble` that stand for the resource fork, the Finder
-- information and the comment of a file.
pub mod Translate
pub mod Refuse
pub mod Opening
pub mod Content
pub mod Names
