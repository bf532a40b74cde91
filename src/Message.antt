-- ===== src/Message.antt =====
-- The message of include/internal_msg.h, kept in pages.
pub mod Memory
pub mod Image
pub mod Buffer
pub mod Lifetime
pub mod Reading
pub mod Transfer
