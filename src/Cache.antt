-- ===== src/Cache.antt =====
-- internal/cache: which versions of a package are kept.
pub mod Newest
