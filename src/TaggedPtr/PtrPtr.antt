-- ===== src/TaggedPtr/PtrPtr.antt =====
-- `allocated_ptr_and_ptr_and_data_and_flags`: two pointers, data and flags.
pub mod Optimized
pub mod Generic
pub mod Refine
