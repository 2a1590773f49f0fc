-- ===== src/Syscall/Context/Calls.antt =====
-- src/syscall.rs: how often the methods of `SyscallContext` call the C library, at most.
use libriscv_rust_binding.Common.{
  ℕ, ◌+◌, ◌≤◌, List, arith, length, ltb, ◌%◌, ◌^◌, inl, inr, u32_max,
}
use libriscv_rust_binding.Slice.{nonnull-cases}
use libriscv_rust_binding.Sys.{Host, Sys}
use libriscv_rust_binding.Syscall.Context.{
  SyscallContext, registers, memview, writable_memview, memstring, read_pod, write_pod,
}
use libriscv_rust_binding.Error.Costs.{Costs, after, either}

-- What counts the calls: each of these raises the count by one at most.
pub record Meter {F : Type 0} (sys : Sys F) (machine : ℕ) : Type 0 where
  pub count : F → ℕ
  pub get_registers :
      (h : Host F) → count (sys.libriscv_get_registers machine h).1.foreign ≤ count h.foreign + 1
  pub memstring_call :
      (src maxlen length : ℕ) (h : Host F)
      → count (sys.libriscv_memstring machine src maxlen length h).1.foreign ≤ count h.foreign + 1
  pub memview_call :
      (src length : ℕ) (h : Host F)
      → count (sys.libriscv_memview machine src length h).1.foreign ≤ count h.foreign + 1
  pub writable_memview_call :
      (src length : ℕ) (h : Host F)
      → count (sys.libriscv_writable_memview machine src length h).1.foreign ≤ count h.foreign + 1

module _ {F : Type 0} (sys : Sys F) (ctx : SyscallContext) (meter : Meter sys ctx.machine) where
  abbrev pub on : Host F → ℕ
  on h = meter.count h.foreign

  pub registers-Costs : Costs on 1 (registers sys ctx)
  unfolding registers
  registers-Costs = record {
    bound = λ h.
        elim (nonnull-cases "libriscv_get_registers" (sys.libriscv_get_registers ctx.machine h).0) [
          | inl (_, e) ↦ rw e (meter.get_registers h)
          | inr (_, e) ↦ rw e (meter.get_registers h)
        ];
  }

  pub memstring-Costs : (src maxlen : ℕ) → Costs on 1 (memstring sys ctx src maxlen)
  unfolding memstring
  memstring-Costs src maxlen =
      either (ltb u32_max maxlen) (record { bound = λ h. omega arith })
        (record {
          bound = λ h.
              elim (nonnull-cases "libriscv_memstring"
                (sys.libriscv_memstring ctx.machine src (maxlen % 2 ^ 32) 0 h).0.0) [
                  | inl (_, e) ↦ rw e (meter.memstring_call src (maxlen % 2 ^ 32) 0 h)
                  | inr (_, e) ↦ rw e (meter.memstring_call src (maxlen % 2 ^ 32) 0 h)
                ];
        })

  pub memview-Costs : (src len : ℕ) → Costs on 1 (memview sys ctx src len)
  unfolding memview
  memview-Costs src len =
      either (ltb u32_max len) (record { bound = λ h. omega arith })
        (record {
          bound = λ h.
              elim (nonnull-cases "libriscv_memview"
                (sys.libriscv_memview ctx.machine src (len % 2 ^ 32) h).0) [
                  | inl (_, e) ↦ rw e (meter.memview_call src (len % 2 ^ 32) h)
                  | inr (_, e) ↦ rw e (meter.memview_call src (len % 2 ^ 32) h)
                ];
        })

  pub writable_memview-Costs : (src len : ℕ) → Costs on 1 (writable_memview sys ctx src len)
  unfolding writable_memview
  writable_memview-Costs src len =
      either (ltb u32_max len) (record { bound = λ h. omega arith })
        (record {
          bound = λ h.
              elim (nonnull-cases "libriscv_writable_memview"
                (sys.libriscv_writable_memview ctx.machine src (len % 2 ^ 32) h).0) [
                  | inl (_, e) ↦ rw e (meter.writable_memview_call src (len % 2 ^ 32) h)
                  | inr (_, e) ↦ rw e (meter.writable_memview_call src (len % 2 ^ 32) h)
                ];
        })

  pub read_pod-Costs : (size src : ℕ) → Costs on 1 (read_pod sys ctx size src)
  unfolding read_pod
  read_pod-Costs size src =
      after 1 0 (omega arith) (memview-Costs src size) (λ view. record { bound = λ h. omega arith })

  pub write_pod-Costs : (dst : ℕ) (value : List ℕ) → Costs on 1 (write_pod sys ctx dst value)
  unfolding write_pod
  write_pod-Costs dst value =
      after 1 0 (omega arith) (writable_memview-Costs dst (length value))
        (λ view. record { bound = λ h. omega arith })
