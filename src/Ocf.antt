-- ===== src/Ocf.antt =====
-- overlaybd/src/overlaybd/cache/ocf_cache/ocf: the C cache engine that the build compiles into the
-- service (`ocf_lib`). A child for each part.
pub mod Err
pub mod AsyncLock
pub mod Lru
pub mod NhitHash
pub mod Promotion
pub mod Refcnt
pub mod Engine
pub mod Space
pub mod Pipeline
