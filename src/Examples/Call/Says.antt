-- ===== src/Examples/Call/Says.antt =====
-- examples/vmcall.rs and examples/advanced_syscalls.rs with the guest's `my_function`: what it says when
-- the host has called it.
use libriscv_rust_binding.Common.{
  ℕ, zero, suc, ◌+◌, ◌^◌, ◌≤◌, ◌<◌, ◌≡◌, refl, sym, ◌∙◌, subst, false, none, some, List, [], ◌∷◌,
  ◌++◌, length, length-append, ok, arith, ◌==◌, u32_max, pos,
}
use libriscv_rust_binding.Common.Utf8.{from_utf8_lossy}
use libriscv_rust_binding.Raw.{IsWhole, null}
use libriscv_rust_binding.Memory.{
  Memory, alloc_bytes, read_cells, Holds, Holds-congr, write_cells-Holds, read_cells-Holds,
}
use libriscv_rust_binding.Memory.Strings.{first_nul, HoldsString, c_str-HoldsString}
use libriscv_rust_binding.Slice.{contents}
use libriscv_rust_binding.Sys.{Host, Sys}
use libriscv_rust_binding.Error.Check.{check_code}
use libriscv_rust_binding.Machine.{Machine, setup_vmcall}
use libriscv_rust_binding.Machine.Guest.RoundTrip.{GuestMemory}
use libriscv_rust_binding.Registers.{x}
use libriscv_rust_binding.Examples.Handlers.{Printed}
use libriscv_rust_binding.Examples.Guest.{World, say, my_function}
use libriscv_rust_binding.Examples.Call.{literal, pass_text, prepare_call}
use libriscv_rust_binding.Examples.Call.Passes.{RegisterFile, regs, pass_text-passes}

-- What is read is held.
Holds-read_cells : (f : ℕ → ℕ) (p n : ℕ) (xs : List ℕ) → read_cells 1 f p n ≡ xs → Holds 1 f p xs
Holds-read_cells f p zero [] e = tt
Holds-read_cells f p zero (x ∷ xs) e = absurd (ground (arith, e))
Holds-read_cells f p (suc n) [] e = absurd (ground (arith, e))
Holds-read_cells f p (suc n) (x ∷ xs) e =
    (ground (arith, e), Holds-read_cells f (p + 1) n xs (ground (arith, e)))

-- A function that gets a C string says it, as `to_string_lossy` shows it.
my_function-says :
    (p : ℕ) (text : List ℕ) (w : World)
    → HoldsString w.memory p text
    → my_function p w ≡ some (say (Printed.stdout_text "Host says: " (from_utf8_lossy text)) w)
unfolding my_function
my_function-says p text w held =
    let test : (p == null) ≡ false = ground (arith, held.nonnull) in
    rw (test, c_str-HoldsString held) refl

-- The literal's bytes are those that the slice shows.
literal-contents : (bs : List ℕ) (m : Memory) → let (msg, m') = literal bs m in contents m' msg ≡ bs
unfolding literal alloc_bytes
literal-contents bs m =
    read_cells-Holds 1 _ m.limit bs (write_cells-Holds 1 m.byte m.limit bs (omega arith))

module _ {F : Type 0} (sys : Sys F) (machine : Machine) (g : GuestMemory sys machine.ptr)
    (f : RegisterFile sys machine.ptr) where
  -- The guest's memory as the function sees it: the C library's, with all below `top` allocated.
  pub record Sees (foreign : F) (top : ℕ) (w : World) : Type 0 where
    pub same : (q : ℕ) → w.memory.byte q ≡ g.byte foreign q
    pub allocated : top ≤ w.memory.limit

  prepare_call-passes :
      (addr : ℕ) (text : List ℕ) (h h' : Host F)
      → sys.libriscv_setup_vmcall machine.ptr addr h ≡ (pos 0, h')
      → prepare_call sys machine addr text h
        ≡ pass_text sys machine
            (literal text h'.memory).0
            (record h' { memory = (literal text h'.memory).1 })
  unfolding prepare_call setup_vmcall check_code
  prepare_call-passes addr text h h' set_up = rw set_up refl

  -- What the guest's memory has at `a` after the call is prepared, the function can read.
  Sees-HoldsString :
      (a top : ℕ) (text : List ℕ) (foreign : F) (w : World)
      → first_nul text ≡ none
      → 0 < a
      → a + length text < top
      → read_cells 1 (g.byte foreign) a (length (text ++ 0 ∷ [])) ≡ text ++ 0 ∷ []
      → Sees foreign top w
      → HoldsString w.memory a text
  Sees-HoldsString a top text foreign w clean present room shown sees = record {
    no_nul = clean;
    nonnull = present;
    inside = omega (arith, sees.allocated);
    content =
        Holds-congr 1 (g.byte foreign) w.memory.byte a (text ++ 0 ∷ []) (λ q lo hi. sees.same q)
          (omega arith) (Holds-read_cells (g.byte foreign) a _ (text ++ 0 ∷ []) shown);
  }

  -- When the C library takes the address of `my_function`, then in a whole register file whose
  -- stack pointer is a `u64` with 16 bytes more than the text needs, and where a text without NUL
  -- bytes, of fewer than `u32::MAX` bytes, lands in mapped memory, `prepare_call` succeeds. The
  -- guest's function, called on what register 10 then holds and with the C library's memory for
  -- this guest, says the text, without the NUL at its end and with a U+FFFD in the place of each
  -- part that is not UTF-8, and does not panic.
  pub prepare_call-says :
      (addr sp : ℕ) (text : List ℕ) (h h' : Host F)
      → sys.libriscv_setup_vmcall machine.ptr addr h ≡ (pos 0, h')
      → first_nul text ≡ none
      → IsWhole (h'.memory.registers f.ptr)
      → (x (regs sys machine g f) 2 h'.memory).0 ≡ ok sp
      → sp < 2 ^ 64
      → length text + 17 ≤ sp
      → length text < u32_max
      → ((dst : ℕ)
          → dst + (length text + 1) ≤ sp
          → sp < dst + (length text + 1) + 16
          → g.IsMapped h'.foreign dst (length text + 1))
      → let (result, after) = prepare_call sys machine addr (text ++ 0 ∷ []) h in
        (str_addr : ℕ) × (result ≡ ok tt)
        × ((x (regs sys machine g f) 10 after.memory).0 ≡ ok str_addr)
        × ((w : World)
            → Sees after.foreign sp w
            → my_function str_addr w
              ≡ some (say (Printed.stdout_text "Host says: " (from_utf8_lossy text)) w))
  unfolding x literal alloc_bytes
  prepare_call-says addr sp text h h' set_up clean whole holds small room short mapped =
      let bs : List ℕ = text ++ 0 ∷ [] in
      let n : length bs ≡ length text + 1 = length-append text (0 ∷ []) in
      let (msg, m) = literal bs h'.memory in
      let (a, passed, _, below, near, _, argument, shown) =
        pass_text-passes sys machine g f sp msg (record h' { memory = m }) whole holds small
          (omega arith) (omega arith)
          (λ dst lo hi.
            subst (λ (k : ℕ). g.IsMapped h'.foreign dst k) (sym n)
              (mapped dst (omega arith) (omega arith))) in
      rw (prepare_call-passes addr bs h h' set_up) (
        a,
        passed,
        argument,
        λ w sees. my_function-says a text w (
            Sees-HoldsString a sp text _ w clean (omega arith) (omega arith)
              (shown ∙ literal-contents bs h'.memory) sees),
      )
