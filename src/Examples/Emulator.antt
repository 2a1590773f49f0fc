-- ===== src/Examples/Emulator.antt =====
-- examples/advanced_syscalls.rs and its guest: the handlers as what the guest's system calls do. The C
-- library has the guest's memory in one arena of the host, where a guest address is an offset, and
-- hands the guest's argument to the handler in register 10.
pub mod Fills
pub mod Cells
pub mod Serves
pub mod Strings
pub mod Vector
pub mod Runs
use libriscv_rust_binding.Common.{
  ℕ, ◌+◌, ◌-◌, ◌<◌, ◌≤◌, ◌≡◌, leb, ◌==◌, if◌then◌else◌, [], set, get_or,
}
use libriscv_rust_binding.Memory.{Memory}
use libriscv_rust_binding.Sys.{Host, Sys}
use libriscv_rust_binding.Syscall.Context.{SyscallContext}
use libriscv_rust_binding.Trampoline.{
  Outcome, from, handle_result, syscall_trampoline, wrapped_body,
}
use libriscv_rust_binding.Error.Action.{Action}
use libriscv_rust_binding.Examples.Handlers.{
  App, host_function_500, host_function_501, host_function_502, host_function_503, Float32,
}
use libriscv_rust_binding.Registers.{Registers, f32_low}
use libriscv_rust_binding.Examples.Handlers.Scales.{written}
use libriscv_rust_binding.Examples.Guest.{World, Ecalls}

-- What the C library does with an arena of `size` bytes from `base` on: views of ranges inside it are
-- addresses in it, and asking for them, or for the register file, changes nothing.
pub record FlatArena {F : Type 0} (sys : Sys F) (machine : ℕ) : Type 0 where
  pub base : ℕ
  pub size : ℕ
  pub ptr : ℕ
  pub machine_present : 0 < machine
  pub base_present : 0 < base
  pub ptr_present : 0 < ptr
  pub registers_at : (h : Host F) → sys.libriscv_get_registers machine h ≡ (ptr, h)
  pub memview_at :
      (src len : ℕ) (h : Host F)
      → src + len ≤ size
      → sys.libriscv_memview machine src len h ≡ (base + src, h)
  pub writable_memview_at :
      (src len : ℕ) (h : Host F)
      → src + len ≤ size
      → sys.libriscv_writable_memview machine src len h ≡ (base + src, h)

module _ {F : Type 0} (sys : Sys F) (machine : ℕ) (arena : FlatArena sys machine) (h : Host F) where
  -- The host at the time of a call: `h`, with the guest's memory and argument.
  abbrev pub entered : (a0 : ℕ) → World → App F
  entered a0 w = record {
    host = record h {
      memory = record h.memory {
        byte = λ p. if leb arena.base p then w.memory.byte (p - arena.base) else h.memory.byte p;
        registers = λ q. record (h.memory.registers q) { r = set (h.memory.registers q).r 10 a0 };
      };
    };
    output = [];
    host_fn_addr = 0;
  }

  -- The guest afterwards: it sees what its memory has become.
  abbrev pub resumed : World → App F → World
  resumed w s = record w {
    memory = record w.memory { byte = λ p. s.host.memory.byte (arena.base + p) };
  }

  -- A handler behind its trampoline. None of these panics.
  abbrev pub called : (SyscallContext → Action (App F) (Unit {0})) → App F → App F
  called handler =
      syscall_trampoline handle_result
        (wrapped_body (λ ctx s. let (result, t) = handler ctx s in (Outcome.returned result, t)))
        machine

  abbrev pub ecall : (a7 a0 : ℕ) → World → World
  ecall a7 a0 w =
      if a7 == 500
      then resumed w (called (host_function_500 sys) (entered a0 w))
      else if a7 == 501
      then resumed w (called (host_function_501 sys) (entered a0 w))
      else if a7 == 502
      then resumed w (called (host_function_502 sys) (entered a0 w))
      else w

  -- The guest's `fa0` to `fa2` are the float registers 10 to 12.
  abbrev pub arena_registers : Registers
  arena_registers = record { ptr = arena.ptr }

  abbrev pub entered_floats : (x y z : ℕ) → World → App F
  entered_floats x y z w =
      let s = entered 0 w in
      record s { host = record s.host { memory = written arena_registers s.host.memory x y z } }

  abbrev pub float_at : App F → ℕ → ℕ
  float_at s j = f32_low (get_or (s.host.memory.registers arena.ptr).fr j 0)

  abbrev pub ecall_floats : Float32 → (a7 : ℕ) → (x y z : ℕ) → World → (ℕ × ℕ × ℕ) × World
  ecall_floats float a7 x y z w =
      let s = called (λ ctx. host_function_503 sys ctx float) (entered_floats x y z w) in
      if a7 == 503
      then ((float_at s 10, float_at s 11, float_at s 12), resumed w s)
      else ((x, y, z), w)
