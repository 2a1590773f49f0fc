-- ===== src/Tests/Registers.antt =====
-- src/lib.rs: `Registers`, at concrete inputs.
use libriscv_rust_binding.Common.{◌≡◌, refl, ok, ltb, ◌==◌, ◌&&◌, if◌then◌else◌}
use libriscv_rust_binding.Raw.{IsWhole}
use libriscv_rust_binding.Registers.{Registers, x, pc, f64}
use libriscv_rust_binding.Syscall.Context.Registers as Handler
use libriscv_rust_binding.Syscall.Context.Registers.Agree.{handler_writes}
use libriscv_rust_binding.Tests.Sample.{sample_memory}

abbrev self : Registers
self = record { ptr = 500 }

whole : IsWhole (sample_memory.registers 500)
whole = record { r_length = refl; fr_length = refl }

handler_writes_example :
    ((x self 10 (Handler.set_x (record { ptr = 500 }) 10 42 sample_memory).1).0
      ≡ (if ltb 10 32 && 10 == 10 then ok 42 else (x self 10 sample_memory).0))
    × ((f64 self 10 (Handler.set_f64 (record { ptr = 500 }) 10 42 sample_memory).1).0
        ≡ (if ltb 10 32 && 10 == 10 then ok 42 else (f64 self 10 sample_memory).0))
    × (pc self (Handler.set_pc (record { ptr = 500 }) 42 sample_memory) ≡ 42)
handler_writes_example = handler_writes 500 10 10 42 sample_memory whole
