-- ===== src/Examples.antt =====
-- examples/*.rs: programs on top of the wrapper, and what they share.
pub mod Text
pub mod Layout
pub mod Stack
pub mod Handlers
pub mod Call
pub mod Mains
pub mod Module
pub mod Keeps
pub mod Guest
pub mod Emulator
