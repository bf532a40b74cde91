-- ===== src/Log.antt =====
-- The log of include/log.h and src/log.cpp: loggers that put messages in a circular buffer, and a
-- thread that writes it to a file.
pub mod Counters
pub mod State
pub mod Ring
pub mod Transport
pub mod Writer
pub mod Machine
pub mod Format
pub mod Front
pub mod Sinks
pub mod Forwards
