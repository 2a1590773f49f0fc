-- ===== src/Lib.antt =====
-- The safe Rust wrapper of libriscv, a RISC-V emulator in C++, and its attribute macros.
--
-- The wrapper's parts. `Options` and its builder collect the settings of a machine and keep the C
-- strings alive that the C library reads through them. A `Machine` owns a machine of the C library,
-- a copy of its program and its options; its methods call the library and turn codes and null
-- pointers into errors. `Registers` borrows the register file. A system call of the guest comes back
-- into Rust through a handler, which sees the machine as a `SyscallContext`; handlers stand in a
-- table of the C library that all machines share, and `SyscallRegistryBuilder` fills it. The macros
-- turn plain Rust functions into handlers, and a module of them into functions that register them
-- all. Callbacks for errors and output get contexts built from the pointers that the library passes.
-- The macros' trampolines stand between the C library and the functions, and let no panic through.
-- The build script chooses what of the C library is compiled, and the examples are programs on top
-- of it all.
--
-- The state. A `Host F` is the memory of the process (Memory.antt: bytes, words of eight bytes,
-- register files, and the first free address) and the state `F` of the C library. The C library is
-- not part of the repository: the record `Sys` (Sys.antt) has one field for each of its functions
-- that the wrapper calls, and every definition that calls one takes the record as a parameter. Where
-- a theorem needs to know what the library does, a record of named hypotheses says so: `GuestMemory`
-- (copies to and from the guest), `WritableViews` (pointers into guest memory), `HandlerTable` (the
-- table of handlers), `MachineTable` and `OtherCalls` (which machines exist), `StringViews`,
-- `FlatArena` (an arena for the guest's memory), `Meter` (a count of calls), `SetKeeps` (the memory
-- after a registration), `DefaultsExtend` and `DefaultsKeepTable` (the memory and the table of handlers
-- after a struct is filled with the defaults) and `RegisterFile`. Tests/Toy.antt gives a small library
-- for which they hold.
-- Fallible code is an `Action` (Error/Action.antt): from a state to an `ok` or an `err`, and the state
-- after it; `?` is its bind.
--
-- Which file models what:
--   libriscv-sys/src/bindings.rs, structs and constants: Raw.antt (as values), Raw/Structs.antt over
--     Raw/Layout.antt (their layout in memory); extern functions: Sys.antt
--   src/lib.rs: Error.antt, Error/Check.antt (`Error`, `error_message`, `check_code`),
--     Options.antt, Options/Setters.antt (`Options`, `OptionsBuilder`), Machine.antt,
--     Machine/Arena.antt, Machine/Guest.antt (`Machine`), Pages.antt (`PageAttributes`),
--     Registers.antt (`Registers`); Machine/Lifecycle.antt: what a program does with its machines, as a
--     step relation, with the method calls of Machine/Calls.antt
--   src/syscall.rs: Syscall.antt (ids, handlers, registration), Syscall/Context.antt
--     (`SyscallContext`), Syscall/Context/Registers.antt (`SyscallRegisters`)
--   src/callbacks.rs: Callbacks.antt
--   libriscv-sys/build.rs: Build.antt
--   libriscv-macros/src/lib.rs: Macros.antt, Macros/Handler.antt, Macros/Registry.antt over the
--     syntax trees of Macros/Syntax.antt; the generated `register` and `registry`: Startup.antt,
--     and the trampolines, with `SyscallResult` of src/syscall.rs: Trampoline.antt
--   examples/basic.rs, vmcall.rs, advanced_syscalls.rs, registry_thread.rs: Examples/Mains.antt
--     (`main`), Examples/Module.antt (the module of system calls), Examples/Call.antt and
--     Examples/Stack.antt (the call of a guest function), Examples/Handlers.antt (callbacks and system
--     calls), Examples/Layout.antt and Examples/Layout/Shared.antt (shared structs),
--     Examples/Text.antt (`write_c_string`)
--   examples/advanced/rust_program/src/main.rs: Examples/Guest.antt; the guest and the handlers together:
--     Examples/Emulator.antt
-- Definitions have the names of the source's functions. The other files hold proofs, and Tests has the
-- theorems at concrete inputs; Slice.antt and Common have what the parts share.
--
-- Representation. Numbers are natural numbers; a cast to `u32` is a remainder modulo 2 ^ 32, and
-- signed numbers are a type of their own with the casts written out (Common/Ints.antt). A pointer is
-- an address, and null is 0. Strings and paths are lists of bytes; `String::from_utf8_lossy` and
-- `to_string_lossy` are written out (Common/Utf8.antt). An `f32` or `f64` is its bit pattern, and the float union is read as on a little-endian host. An allocation takes fresh
-- addresses; freeing is not modelled. No definition needs fuel but the search for the end of a C
-- string, which looks at the allocated memory and no further.
--
-- Not modelled: where the compiler puts the drops (the steps of Machine/Lifecycle.antt have them
-- anywhere that its borrow rules allow; Examples/Mains.antt has them where `main` ends); threads
-- (the one that registry_thread.rs starts shares nothing with the registry); system call handlers
-- that make or drop machines while a guest runs; what `syn` and `quote` do, of which the macros'
-- definitions take the result; what the types of a function mean where it stands, and whether it is
-- well typed, which the compiler decides; what the C++ compiler, `cc` and bindgen do with the build
-- script's plan; the arithmetic of `f32`, a parameter of the one handler that uses
-- it; the views of structs as bytes that bytemuck gives, of which Examples/Layout.antt says what they
-- show; the layout of types on targets whose pointers have other widths than 32 or 64 bits; the
-- integration tests.
pub mod Build
pub mod Callbacks
mod Common
pub mod Error
pub mod Examples
pub mod Machine
pub mod Macros
pub mod Memory
pub mod Options
pub mod Pages
pub mod Raw
pub mod Registers
pub mod Slice
pub mod Startup
pub mod Sys
pub mod Syscall
mod Tests
pub mod Trampoline
