-- ===== src/Tests/Handlers.antt =====
-- examples/*.rs: the vector, the number of calls and the call of the guest, with the small C library.
use libriscv_rust_binding.Common.Utf8.{from_utf8_lossy}
use libriscv_rust_binding.Common.{
  ℕ, ◌+◌, ◌≤◌, ◌≡◌, refl, arith, ok, some, [], ◌∷◌, replicate, set, ◌==◌, if◌then◌else◌,
}
use libriscv_rust_binding.Sys.{Host, Sys}
use libriscv_rust_binding.Registers.{x, f32, pc}
use libriscv_rust_binding.Registers.Laws.{Spares}
use libriscv_rust_binding.Syscall.Context.{SyscallContext}
use libriscv_rust_binding.Syscall.Context.Calls.{Meter}
use libriscv_rust_binding.Examples.Handlers.{
  App, Printed, host_function_500, host_function_501, host_function_502, host_function_503,
}
use libriscv_rust_binding.Examples.Handlers.Scales.{Closed, scaled, host_function_503-scales}
use libriscv_rust_binding.Examples.Handlers.Bounded.{handlers-Costs}
use libriscv_rust_binding.Examples.Call.{prepare_call}
use libriscv_rust_binding.Examples.Call.Says.{Sees, prepare_call-says}
use libriscv_rust_binding.Examples.Guest.{World, my_function, say}
use libriscv_rust_binding.Tests.Sample.{integers, sample_host, sample_memory, sample_machine}
use libriscv_rust_binding.Tests.Toy.{Toy, toy, toy_guest, toy_register_file}

abbrev context : SyscallContext
context = record { machine = 400 }

integers-Closed : Closed integers
integers-Closed a b = omega arith

-- The vector is (0, 3, 0), and the stack pointer is 1000.
abbrev host : Host Toy
host = record sample_host {
  memory = record sample_memory {
    registers = λ _. record {
      r = set (replicate 32 0) 2 1000;
      pc = 0;
      fcsr = 0;
      fr = set (replicate 32 0) 11 3;
    };
  };
}

abbrev app : App Toy
app = record { host = host; output = []; host_fn_addr = 0 }

host_function_503-scales_example :
    let (result, t) = host_function_503 toy context integers app in
    let scale = scaled integers 0 3 0 in
    (result ≡ ok tt)
    × (t.output ≡ [])
    × (t.host.foreign ≡ host.foreign)
    × Spares (record { ptr = 500 }) host.memory t.host.memory
    × (pc (record { ptr = 500 }) t.host.memory ≡ pc (record { ptr = 500 }) host.memory)
    × ((j : ℕ)
        → (x (record { ptr = 500 }) j t.host.memory).0 ≡ (x (record { ptr = 500 }) j host.memory).0)
    × ((j : ℕ)
        → (f32 (record { ptr = 500 }) j t.host.memory).0 ≡ (
            if j == 12
            then ok (scale 0)
            else if j == 11
            then ok (scale 3)
            else if j == 10
            then ok (scale 0)
            else (f32 (record { ptr = 500 }) j host.memory).0))
unfolding f32
host_function_503-scales_example =
    host_function_503-scales toy context integers integers-Closed 500 app host (omega arith) refl
      (record { r_length = refl; fr_length = refl }) 0 3 0 refl refl refl

-- A state of the C library in which one more call has been counted.
abbrev counted : Toy → Toy
counted f = record f { next = f.next + 1 }

abbrev counting : {A : Type 0} → A × Host Toy → A × Host Toy
counting (a, h) = (a, record h { foreign = counted h.foreign })

abbrev counting_toy : Sys Toy
counting_toy = record toy {
  libriscv_get_registers = λ m h. counting (toy.libriscv_get_registers m h);
  libriscv_memstring = λ m src maxlen len h. counting (toy.libriscv_memstring m src maxlen len h);
  libriscv_memview = λ m src len h. counting (toy.libriscv_memview m src len h);
  libriscv_writable_memview = λ m src len h. counting (toy.libriscv_writable_memview m src len h);
}

abbrev meter : Meter counting_toy 400
meter = record {
  count = λ f. f.next;
  get_registers = λ h. omega arith;
  memstring_call = λ src maxlen len h. omega arith;
  memview_call = λ src len h. omega arith;
  writable_memview_call = λ src len h. omega arith;
}

handlers-Costs_example :
    ((host_function_500 counting_toy context app).1.host.foreign.next ≤ 434)
    × ((host_function_501 counting_toy context app).1.host.foreign.next ≤ 404)
    × ((host_function_502 counting_toy context app).1.host.foreign.next ≤ 401)
    × ((host_function_503 counting_toy context integers app).1.host.foreign.next ≤ 401)
handlers-Costs_example = handlers-Costs counting_toy context meter integers app

prepare_call-says_example :
    let (result, after) = prepare_call toy sample_machine 9000 (72 ∷ 105 ∷ 0 ∷ []) host in
    (str_addr : ℕ) × (result ≡ ok tt)
    × ((x (record { ptr = 500 }) 10 after.memory).0 ≡ ok str_addr)
    × ((w : World)
        → Sees toy sample_machine (toy_guest 400) toy_register_file after.foreign 1000 w
        → my_function str_addr w ≡ some (say (Printed.stdout_text "Host says: " (72 ∷ 105 ∷ [])) w))
unfolding x from_utf8_lossy
prepare_call-says_example =
    prepare_call-says toy sample_machine (toy_guest 400) toy_register_file 9000 1000 (72 ∷ 105 ∷ [])
      host host refl refl (record { r_length = refl; fr_length = refl }) refl (omega arith)
      (omega arith) (omega arith) (λ dst lo hi. tt)
