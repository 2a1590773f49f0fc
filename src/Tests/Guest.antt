-- ===== src/Tests/Guest.antt =====
-- examples/advanced/rust_program/src/main.rs: the guest, with the handlers and the small C library.
use libriscv_rust_binding.Common.{◌≡◌, refl, arith, inl, inr, some, [], ◌∷◌}
use libriscv_rust_binding.Examples.Handlers.{Printed, hello_501, second, host_function_500}
use libriscv_rust_binding.Examples.Guest.{World, Places, store_strings, main}
use libriscv_rust_binding.Examples.Emulator.{entered, called, ecall_floats}
use libriscv_rust_binding.Examples.Emulator.Strings.{AreSent, send_strings-printed}
use libriscv_rust_binding.Examples.Emulator.Serves.{IsPlaced, emulated}
use libriscv_rust_binding.Examples.Handlers.Scales.{scaled}
use libriscv_rust_binding.Examples.Emulator.Runs.{main-served}
use libriscv_rust_binding.Tests.Sample.{integers, sample_memory, sample_host}
use libriscv_rust_binding.Tests.Toy.{toy, toy_arena, toy-FlatStrings}

abbrev places : Places
places = record {
  hello = 100;
  world = 110;
  strings = 200;
  another_buf = 5000;
  buffer = 1000;
  my_function = 9000;
}

placed : IsPlaced 10000 places
placed = record {
  buffer_inside = omega arith;
  another_inside = omega arith;
  apart = inr (omega arith);
  another_small = omega arith;
}

abbrev start : World
start = record { memory = sample_memory; output = [] }

are_sent : AreSent 10000 places
are_sent = record {
  strings_inside = omega arith;
  hello_inside = omega arith;
  world_inside = omega arith;
  hello_world = inl (omega arith);
  hello_strings = inl (omega arith);
  world_strings = inl (omega arith);
  hello_small = omega arith;
  world_small = omega arith;
}

send_strings-printed_example :
    (called toy 400 toy_arena sample_host
      (host_function_500 toy)
      (entered toy 400 toy_arena sample_host 200 (store_strings places start))).output
    ≡ Printed.stdout "Hello from host function 0!"
      ∷ Printed.stdout_text "  " (72 ∷ 101 ∷ 108 ∷ 108 ∷ 111 ∷ [])
      ∷ Printed.stdout_text "  " (87 ∷ 111 ∷ 114 ∷ 108 ∷ 100 ∷ [])
      ∷ []
send_strings-printed_example =
    send_strings-printed toy 400 toy_arena sample_host places are_sent start toy-FlatStrings
      (record { r_length = refl; fr_length = refl })

main-served_example :
    let scale = scaled integers 0 0x4040_0000 0 in
    (w' : World) × (main
        (emulated toy 400 toy_arena sample_host
          (ecall_floats toy 400 toy_arena sample_host integers)
          places)
        places
        start
      ≡ some w')
    × (w'.output
        ≡ Printed.stdout "Hello, Micro RISC-V World!"
          ∷ Printed.stdout_text "Buffer: " hello_501
          ∷ Printed.stdout_text "Another Buffer: " second
          ∷ Printed.stdout_floats "Normalized vector: " (scale 0) (scale 0x4040_0000) (scale 0)
          ∷ [])
main-served_example =
    main-served toy 400 toy_arena sample_host integers (λ a b. omega arith)
      (record { r_length = refl; fr_length = refl }) places start placed
