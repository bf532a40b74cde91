-- ===== src/Stack.antt =====
-- Stack traces (include/stack_info.h, src/stack_info_impl.h, src/stack_info.cpp), as built for Linux.
pub mod Text
pub mod Resolve
pub mod Cache
pub mod Pointers
pub mod Info
