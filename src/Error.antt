-- ===== src/Error.antt =====
-- The error classes of include/error.h, include/std_error.h and include/safe_memory_error.h.
pub mod Messages
pub mod Class
pub mod Codes
pub mod Traced
pub mod Logging
