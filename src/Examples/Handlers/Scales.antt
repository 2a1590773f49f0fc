-- ===== src/Examples/Handlers/Scales.antt =====
-- examples/advanced_syscalls.rs: what `host_function_503` makes of the guest's vector.
use libriscv_rust_binding.Common.{
  ℕ, ◌^◌, ◌<◌, ◌≡◌, refl, ◌∙◌, ok, arith, get_or, ◌==◌, if◌then◌else◌,
}
use libriscv_rust_binding.Raw.{IsWhole}
use libriscv_rust_binding.Memory.{Memory}
use libriscv_rust_binding.Slice.{nonnull-positive}
use libriscv_rust_binding.Sys.{Host, Sys}
use libriscv_rust_binding.Registers.{Registers, x, f32, set_f32, f32_low, pc}
use libriscv_rust_binding.Registers.Laws.{f32-writes, set_float-frame, writes-IsWhole, Spares}
use libriscv_rust_binding.Syscall.Context.{SyscallContext, registers}
use libriscv_rust_binding.Syscall.Context.Registers as Handler
use libriscv_rust_binding.Examples.Handlers.{App, Float32, host_function_503}

-- A product of two `f32` is an `f32`.
abbrev pub Closed : Float32 → Type 0
Closed float = (a b : ℕ) → float.mul a b < 2 ^ 32

-- The vector's factor: the inverse of its length where that is positive, and otherwise none.
module _ (float : Float32) (a b c : ℕ) where
  abbrev pub norm : ℕ
  norm = float.sqrt (float.add (float.add (float.mul a a) (float.mul b b)) (float.mul c c))

  abbrev pub scaled : ℕ → ℕ
  scaled v = if float.is_positive norm then float.mul v (float.div float.one norm) else v

  scaled-small : Closed float → (v : ℕ) → v < 2 ^ 32 → scaled v < 2 ^ 32
  scaled-small closed v h = ground (arith, closed v (float.div float.one norm))

Spares-trans :
    {self : Registers} {l m n : Memory} → Spares self l m → Spares self m n → Spares self l n
Spares-trans a b = record {
  byte = b.byte ∙ a.byte;
  word = b.word ∙ a.word;
  limit = b.limit ∙ a.limit;
  others = λ q h. b.others q h ∙ a.others q h;
}

-- Three writes of float registers.
abbrev pub written : Registers → Memory → (u v w : ℕ) → Memory
written self m u v w = (set_f32 self 12 w (set_f32 self 11 v (set_f32 self 10 u m).1).1).1

module _ (self : Registers) (m : Memory) (whole : IsWhole (m.registers self.ptr)) (u v w : ℕ) where
  pub written-IsWhole : IsWhole ((written self m u v w).registers self.ptr)
  written-IsWhole =
      let m1 : Memory = (set_f32 self 10 u m).1 in
      let m2 : Memory = (set_f32 self 11 v m1).1 in
      let (_, w1, _, _, _) = writes-IsWhole self m whole 10 u in
      let (_, w2, _, _, _) = writes-IsWhole self m1 w1 11 v in
      let (_, w3, _, _, _) = writes-IsWhole self m2 w2 12 w in w3

  pub written-reads :
      (j : ℕ)
      → u < 2 ^ 32
      → v < 2 ^ 32
      → w < 2 ^ 32
      → ((f32 self j (written self m u v w)).0 ≡ (
          if j == 12
          then ok w
          else if j == 11
          then ok v
          else if j == 10
          then ok u
          else (f32 self j m).0))
        × ((x self j (written self m u v w)).0 ≡ (x self j m).0)
        × (pc self (written self m u v w) ≡ pc self m)
        × Spares self m (written self m u v w)
  written-reads j hu hv hw =
      let m1 : Memory = (set_f32 self 10 u m).1 in
      let m2 : Memory = (set_f32 self 11 v m1).1 in
      let (_, w1, _, _, _) = writes-IsWhole self m whole 10 u in
      let (_, w2, _, _, _) = writes-IsWhole self m1 w1 11 v in
      let (x1, _, pc1, _, _, _, s1, _) = set_float-frame self m 10 j u in
      let (x2, _, pc2, _, _, _, s2, _) = set_float-frame self m1 11 j v in
      let (x3, _, pc3, _, _, _, s3, _) = set_float-frame self m2 12 j w in
      (
        ground (
          arith,
          (f32-writes self m whole 10 j u hu).0,
          (f32-writes self m1 w1 11 j v hv).0,
          (f32-writes self m2 w2 12 j w hw).0,
        ),
        x3 ∙ x2 ∙ x1,
        pc3 ∙ pc2 ∙ pc1,
        Spares-trans s1 (Spares-trans s2 s3),
      )

module _ {F : Type 0} (sys : Sys F) (ctx : SyscallContext) (float : Float32)
    (closed : Closed float) where
  runs_lem :
      (ptr a b c : ℕ) (s : App F) (h : Host F)
      → 0 < ptr
      → sys.libriscv_get_registers ctx.machine s.host ≡ (ptr, h)
      → f32_low (get_or (h.memory.registers ptr).fr 10 0) ≡ a
      → f32_low (get_or (h.memory.registers ptr).fr 11 0) ≡ b
      → f32_low (get_or (h.memory.registers ptr).fr 12 0) ≡ c
      → let scale = scaled float a b c in
        host_function_503 sys ctx float s ≡ (
          ok tt,
          record s {
            host = record h {
              memory = written (record { ptr = ptr }) h.memory (scale a) (scale b) (scale c);
            };
          },
        )
  unfolding host_function_503 registers Handler.f32 Handler.set_f32 set_f32
  runs_lem ptr a b c s h present found ha hb hc =
      rw (found, nonnull-positive "libriscv_get_registers" ptr present, ha, hb, hc) refl

  -- In a whole register file, and where a product of two `f32` is an `f32`: `host_function_503`
  -- succeeds and prints nothing. The machine's owner then reads the three components in the float
  -- registers 10 to 12, each multiplied by the inverse of the vector's length if that is positive,
  -- and as it was otherwise. Every other single-precision register, the integer registers, the
  -- program counter, the bytes and words of the memory and the other register files are as before.
  pub host_function_503-scales :
      (ptr : ℕ) (s : App F) (h : Host F)
      → 0 < ptr
      → sys.libriscv_get_registers ctx.machine s.host ≡ (ptr, h)
      → IsWhole (h.memory.registers ptr)
      → (a b c : ℕ)
      → let self : Registers = record { ptr = ptr } in
        (f32 self 10 h.memory).0 ≡ ok a
        → (f32 self 11 h.memory).0 ≡ ok b
        → (f32 self 12 h.memory).0 ≡ ok c
        → let (result, t) = host_function_503 sys ctx float s in
          let scale = scaled float a b c in
          (result ≡ ok tt)
          × (t.output ≡ s.output)
          × (t.host.foreign ≡ h.foreign)
          × Spares self h.memory t.host.memory
          × (pc self t.host.memory ≡ pc self h.memory)
          × ((j : ℕ) → (x self j t.host.memory).0 ≡ (x self j h.memory).0)
          × ((j : ℕ)
              → (f32 self j t.host.memory).0 ≡ (
                  if j == 12
                  then ok (scale c)
                  else if j == 11
                  then ok (scale b)
                  else if j == 10
                  then ok (scale a)
                  else (f32 self j h.memory).0))
  unfolding f32
  host_function_503-scales ptr s h present found whole a b c ha hb hc =
      let self : Registers = record { ptr = ptr } in
      let la : f32_low (get_or (h.memory.registers ptr).fr 10 0) ≡ a = cc in
      let lb : f32_low (get_or (h.memory.registers ptr).fr 11 0) ≡ b = cc in
      let lc : f32_low (get_or (h.memory.registers ptr).fr 12 0) ≡ c = cc in
      let scale = scaled float a b c in
      let small = scaled-small float a b c closed in
      let reads = λ (j : ℕ).
        written-reads self h.memory whole (scale a) (scale b) (scale c) j (small a (omega arith))
          (small b (omega arith)) (small c (omega arith)) in
      rw (runs_lem ptr a b c s h present found la lb lc)
        (refl, refl, refl, (reads 0).3, (reads 0).2, λ j. (reads j).1, λ j. (reads j).0)
