-- ===== src/Examples/Emulator/Runs.antt =====
-- examples/advanced_syscalls.rs with examples/advanced/rust_program/src/main.rs: the guest's
-- whole run.
use mathlib.Core.List.{append_assoc}
use libriscv_rust_binding.Common.{ℕ, ◌≡◌, refl, ◌∙◌, some, List, [], ◌∷◌, ◌++◌, arith}
use libriscv_rust_binding.Raw.{IsWhole}
use libriscv_rust_binding.Sys.{Host, Sys}
use libriscv_rust_binding.Examples.Handlers.{Printed, Float32, hello_501, second}
use libriscv_rust_binding.Examples.Handlers.Scales.{Closed, scaled}
use libriscv_rust_binding.Examples.Guest.{
  World, Ecalls, Places, say, main, send_strings, store_strings, show_buffers, host_function_500,
  host_function_502, host_function_503 as guest_503,
}
use libriscv_rust_binding.Examples.Emulator.{FlatArena, ecall_floats}
use libriscv_rust_binding.Examples.Emulator.Vector.{vector_served}
use libriscv_rust_binding.Examples.Emulator.Serves.{IsPlaced, emulated, show_buffers-served}

-- Four lines, said in three parts.
lines_lem :
    (o o1 o2 : List Printed) (a b c d : Printed)
    → o1 ≡ o ++ a ∷ []
    → o2 ≡ o1 ++ b ∷ c ∷ []
    → o2 ++ d ∷ [] ≡ o ++ a ∷ b ∷ c ∷ d ∷ []
lines_lem o o1 o2 a b c d first next = rw (next, first) (simp append_assoc)

-- The guest's `main` on any host: the run of its parts, and what it says.
module _ (host : Ecalls) (at : Places) where
  abbrev finish : World → World
  finish w =
      let ((x, y, z), w') =
        guest_503 host 0 0x4040_0000 0 (host_function_502 host at.my_function w) in
      say (Printed.stdout_floats "Normalized vector: " x y z) w'

  main-finishes :
      (w w' : World)
      → show_buffers host at
          (send_strings host at (say (Printed.stdout "Hello, Micro RISC-V World!") w))
        ≡ some w'
      → main host at w ≡ some (finish w')
  unfolding main
  main-finishes w w' shown = rw shown refl

  send_strings-quiet :
      ((a0 : ℕ) (w : World) → (host.ecall 500 a0 w).output ≡ w.output)
      → (w : World) → (send_strings host at w).output ≡ w.output
  unfolding send_strings host_function_500 store_strings
  send_strings-quiet quiet w = quiet at.strings (store_strings at w)

  finish-says :
      (x y z : ℕ) (w : World)
      → ((a0 : ℕ) (w : World) → (host.ecall 502 a0 w).output ≡ w.output)
      → ((w : World)
          → let (answer, w') = host.ecall_floats 503 0 0x4040_0000 0 w in
            (answer ≡ (x, y, z)) × (w'.output ≡ w.output))
      → (finish w).output ≡ w.output ++ Printed.stdout_floats "Normalized vector: " x y z ∷ []
  unfolding host_function_502 guest_503
  finish-says x y z w quiet vector =
      let (answer, same) = vector (host_function_502 host at.my_function w) in
      rw (answer, same, quiet at.my_function w) refl

module _ {F : Type 0} (sys : Sys F) (machine : ℕ) (arena : FlatArena sys machine) (h : Host F)
    (float : Float32) (closed : Closed float) (whole : IsWhole (h.memory.registers arena.ptr)) where
  module _ (at : Places) where
    abbrev pub host : Ecalls
    host = emulated sys machine arena h (ecall_floats sys machine arena h float) at

    abbrev pub scale : ℕ → ℕ
    scale = scaled float 0 0x4040_0000 0

    -- With the host's handlers behind all its system calls, the guest's `main` runs to its end without a
    -- panic. It shows its greeting, the two texts of the host, whole and without the NULs behind them,
    -- and the vector (0, 3, 0) with each component as `host_function_503` scales it, in this order. The
    -- C library has the guest's memory in an arena with the guest's two buffers in it, apart from each
    -- other, and a whole register file, and a product of two `f32` is an `f32`.
    pub main-served :
        (w : World)
        → IsPlaced arena.size at
        → (w' : World) × (main host at w ≡ some w')
          × (w'.output
              ≡ w.output
                ++ Printed.stdout "Hello, Micro RISC-V World!"
                  ∷ Printed.stdout_text "Buffer: " hello_501
                  ∷ Printed.stdout_text "Another Buffer: " second
                  ∷ Printed.stdout_floats "Normalized vector: "
                      (scale 0)
                      (scale 0x4040_0000)
                      (scale 0)
                  ∷ [])
    main-served w placed =
        let greeted : World = say (Printed.stdout "Hello, Micro RISC-V World!") w in
        let (w', shown, texts) =
          show_buffers-served sys machine arena h (ecall_floats sys machine arena h float) at
            (send_strings host at greeted) whole placed in
        let sent = send_strings-quiet host at (λ a0 v. refl) greeted in
        (
          finish host at w',
          main-finishes host at w w' shown,
          finish-says host at (scale 0) (scale 0x4040_0000) (scale 0) w' (λ a0 v. refl)
                (λ v.
                  vector_served sys machine arena h float closed whole 0 0x4040_0000 0 v
                    (omega arith) (omega arith) (omega arith))
              ∙ lines_lem w.output (send_strings host at greeted).output w'.output _ _ _ _ sent
                  texts,
        )
