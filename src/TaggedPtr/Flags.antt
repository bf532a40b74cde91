-- ===== src/TaggedPtr/Flags.antt =====
-- `allocated_ptr_with_flags`: an allocated pointer with flags.
pub mod Generic
pub mod Optimized
pub mod Laws
