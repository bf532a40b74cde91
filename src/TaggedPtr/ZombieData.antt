-- ===== src/TaggedPtr/ZombieData.antt =====
-- `allocptr_with_zombie_property_and_data`: an allocated pointer with 16 digits of data.
pub mod Generic
pub mod Optimized
pub mod Laws
