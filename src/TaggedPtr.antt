-- ===== src/TaggedPtr.antt =====
-- include/tagged_ptr_impl.h and src/tagged_ptr_impl.cpp: pointers that carry a zombie mark, data,
-- a mask and flags in the digits that an address leaves unused.
pub mod Layout
pub mod Zombie
pub mod ZombieData
pub mod Flags
pub mod MaskFlags
pub mod PtrPtr
