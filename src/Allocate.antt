-- ===== src/Allocate.antt =====
-- Where memory comes from: the allocator of the containers, and the allocator of pages.
pub mod Elements
pub mod Pages
pub mod Wasm
