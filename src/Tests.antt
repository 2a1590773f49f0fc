-- ===== src/Tests.antt =====
-- The theorems at concrete inputs.
mod Build
mod Error
mod Guest
mod Handlers
mod Structs
mod Examples
mod Programs
mod Lifecycle
mod Machine
mod Macros
mod Names
mod Options
mod Registers
mod Sample
mod Syscall
mod Toy
