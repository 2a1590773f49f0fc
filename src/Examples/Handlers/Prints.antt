-- ===== src/Examples/Handlers/Prints.antt =====
-- examples/advanced_syscalls.rs: what `host_function_500` prints.
use mathlib.Core.List.{append_assoc, append-nil}
use libriscv_rust_binding.Common.{
  ℕ, ◌<◌, ◌≡◌, refl, sym, ap, min, Option, none, some, List, [], ◌∷◌, ◌++◌, ok, arith, take, get_or,
  ◌==◌, if◌then◌else◌, err, false, Bool-cases, inl, inr,
}
use libriscv_rust_binding.Common.Utf8.{from_utf8_lossy}
use libriscv_rust_binding.Memory.{Memory, read_bytes}
use libriscv_rust_binding.Raw.{null}
use libriscv_rust_binding.Slice.{nonnull-positive}
use libriscv_rust_binding.Error.{Error}
use libriscv_rust_binding.Sys.{Host, Sys}
use libriscv_rust_binding.Syscall.Context.{SyscallContext, registers, memstring, read_pod}
use libriscv_rust_binding.Syscall.Context.Registers.{x}
use libriscv_rust_binding.Syscall.Context.Views.{memview-at}
use libriscv_rust_binding.Examples.Layout.{strings_size, strings_from_bytes}
use libriscv_rust_binding.Examples.Handlers.{
  Printed, App, print_slice, print_string, print_strings, first_argument, host_function_500,
}

-- What `libriscv_memstring` answers: null, or where the string is and how long.
abbrev pub Shows : Option (List ℕ) → ℕ × ℕ → Memory → Type 0
Shows none (p, len) m = p ≡ null
Shows (some text) (p, len) m = (0 < p) × (read_bytes m p len ≡ text)

-- What the handler relies on: asking for a string changes nothing, and shows the guest's string of at
-- most `maxlen` bytes, or null if there is none.
pub record StringViews {F : Type 0} (sys : Sys F) (machine : ℕ) : Type 1 where
  pub text : Host F → (src maxlen : ℕ) → Option (List ℕ)
  pub view :
      (src maxlen : ℕ) (h : Host F)
      → let (answer, h') = sys.libriscv_memstring machine src maxlen 0 h in
        (h' ≡ h) × Shows (text h src maxlen) answer h.memory

-- A handler's first argument: the register file is there, with the argument in register 10.
pub record Argument {F : Type 0} (sys : Sys F) (machine : ℕ) (h : Host F) (addr : ℕ) : Type 0 where
  pub ptr : ℕ
  pub present : 0 < ptr
  pub found : sys.libriscv_get_registers machine h ≡ (ptr, h)
  pub holds : get_or (h.memory.registers ptr).r 10 0 ≡ addr

-- The lines for a string that may be unreadable, and for the strings at some addresses.
abbrev pub line : Option (List ℕ) → List Printed
line none = []
line (some text) = Printed.stdout_text "  " (from_utf8_lossy text) ∷ []

abbrev pub lines : (text : ℕ → Option (List ℕ)) → List ℕ → List Printed
lines text [] = []
lines text (src ∷ rest) = line (text src) ++ lines text rest

module _ {F : Type 0} (sys : Sys F) (ctx : SyscallContext) where
  pub first_argument-found :
      (addr : ℕ) (s : App F)
      → Argument sys ctx.machine s.host addr
      → first_argument sys ctx s ≡ (ok addr, s)
  unfolding first_argument registers x
  first_argument-found addr s a =
      rw (a.found, nonnull-positive "libriscv_get_registers" a.ptr a.present, a.holds) refl

  pub read_pod-at :
      (size src p : ℕ) (h : Host F)
      → size < 2000
      → 0 < p
      → sys.libriscv_memview ctx.machine src size h ≡ (p, h)
      → read_pod sys ctx size src h ≡ (ok (read_bytes h.memory p size), h)
  unfolding read_pod
  read_pod-at size src p h small present found =
      rw (memview-at sys ctx src size p h (omega arith) present found) refl

  -- One answer of `libriscv_memstring`, in the state where it changed nothing.
  memstring-answer :
      (src p len : ℕ) (h : Host F)
      → sys.libriscv_memstring ctx.machine src 256 0 h ≡ ((p, len), h)
      → memstring sys ctx src 256 h ≡ (
        if p == null
            then err (Error.null_pointer "libriscv_memstring")
            else ok (record { address = p; len = len }),
        h,
      )
  unfolding memstring
  memstring-answer src p len h call = elim (Bool-cases (p == null)) [
    | inl e ↦ rw (call, e)
    | inr e ↦ rw (call, e)
  ]

  pub print_string-answer :
      (src p len : ℕ) (s : App F) (text : Option (List ℕ))
      → sys.libriscv_memstring ctx.machine src 256 0 s.host ≡ ((p, len), s.host)
      → Shows text (p, len) s.host.memory
      → print_string sys ctx src s ≡ (ok tt, record s { output = s.output ++ line text })
  unfolding print_string print_slice
  print_string-answer src p len s none call shown =
      rw (memstring-answer src p len s.host call, shown)
        (ap (λ o. (ok tt, record s { output = o })) (sym (append-nil s.output)))
  print_string-answer src p len s (some text) call (present, bytes) =
      let test : (p == null) ≡ false = ground arith in
      rw (memstring-answer src p len s.host call, test, bytes) refl

  module _ (v : StringViews sys ctx.machine) where
    print_strings-lines :
        (srcs : List ℕ) (s : App F)
        → print_strings sys ctx srcs s
          ≡ (ok tt, record s { output = s.output ++ lines (λ src. v.text s.host src 256) srcs })
    unfolding print_strings
    print_strings-lines [] s =
        ap (λ o. (ok tt, record s { output = o })) (sym (append-nil s.output))
    print_strings-lines (src ∷ rest) s =
        let answer = (sys.libriscv_memstring ctx.machine src 256 0 s.host).0 in
        let (same, shown) = v.view src 256 s.host in
        let first =
          print_string-answer src _ _ s (v.text s.host src 256) (ap (λ h. (answer, h)) same)
            shown in
        let t : App F = record s { output = s.output ++ line (v.text s.host src 256) } in
        rw (first, print_strings-lines rest t)
          (ap (λ o. (ok tt, record s { output = o }))
            (append_assoc s.output (line (v.text s.host src 256))
              (lines (λ src. v.text s.host src 256) rest)))

    -- When the argument is the address of readable strings, `host_function_500` succeeds, prints
    -- its greeting and then, in their order, those of the first `count` addresses, and of the
    -- first 32 at most, at which a string can be read, with a U+FFFD in the place of each part
    -- that is not UTF-8; it changes nothing else.
    pub host_function_500-prints :
        (addr p : ℕ) (s : App F)
        → Argument sys ctx.machine s.host addr
        → 0 < p
        → sys.libriscv_memview ctx.machine addr strings_size s.host ≡ (p, s.host)
        → let given = strings_from_bytes (read_bytes s.host.memory p strings_size) in
          host_function_500 sys ctx s ≡ (
            ok tt,
            record s {
              output =
                  s.output
                  ++ Printed.stdout "Hello from host function 0!"
                    ∷ lines
                        (λ src. v.text s.host src 256)
                        (take (min given.count 32) given.strings);
            },
          )
    unfolding host_function_500 strings_from_bytes
    host_function_500-prints addr p s a present found =
        let t : App F = record s {
          output = s.output ++ Printed.stdout "Hello from host function 0!" ∷ [];
        } in
        let srcs : List ℕ =
          (let given = strings_from_bytes (read_bytes s.host.memory p strings_size) in
            take (min given.count 32) given.strings) in
        rw
          (
            first_argument-found addr t a,
            read_pod-at strings_size addr p s.host (omega arith) present found,
            print_strings-lines srcs t,
          )
          (ap (λ o. (ok tt, record s { output = o }))
            (append_assoc s.output (Printed.stdout "Hello from host function 0!" ∷ [])
              (lines (λ src. v.text s.host src 256) srcs)))
