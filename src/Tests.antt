-- ===== src/Tests.antt =====
-- The theorems at concrete inputs, and runs of the definitions on them.
mod Tagged
mod Refinements
mod Messages
mod Allocator
mod Strings
mod Logs
mod Fronts
mod Runs
mod Stacks
mod Errors
mod Allocators
mod Maps
