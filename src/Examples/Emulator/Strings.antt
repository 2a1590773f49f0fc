-- ===== src/Examples/Emulator/Strings.antt =====
-- examples/advanced_syscalls.rs with examples/advanced/rust_program/src/main.rs: the host prints the
-- guest's strings.
use libriscv_rust_binding.Common.{
  ℕ, zero, suc, ◌+◌, ◌^◌, ◌<◌, ◌≤◌, ◌≡◌, refl, sym, ap, ◌∙◌, subst, ◌⊎◌, inl, inr, some, true, List,
  [], ◌∷◌, ◌++◌, ok, arith, length, take, replicate,
}
use libriscv_rust_binding.Raw.{IsWhole}
use libriscv_rust_binding.Common.Utf8.{is_ascii, from_utf8_lossy-ascii}
use libriscv_rust_binding.Memory.{Memory, read_bytes}
use libriscv_rust_binding.Sys.{Host, Sys}
use libriscv_rust_binding.Examples.Text.{until_nul}
use libriscv_rust_binding.Examples.Layout.{strings_size, strings_to_bytes, strings_from_bytes}
use libriscv_rust_binding.Examples.Layout.RoundTrip.{
  AllWords, IsStrings, strings-strings, length-strings,
}
use libriscv_rust_binding.Examples.Handlers.{
  Printed, App, print_string, print_strings, host_function_500,
}
use libriscv_rust_binding.Examples.Handlers.Prints.{
  first_argument-found, read_pod-at, print_string-answer,
}
use libriscv_rust_binding.Examples.Guest.{
  World, Places, store, hello_text, world_text, sent, store_strings,
}
use libriscv_rust_binding.Examples.Guest.Shows.{take-until_nul, take-read_cells, read-store}
use libriscv_rust_binding.Examples.Emulator.{FlatArena, entered, called}
use libriscv_rust_binding.Examples.Emulator.Cells.{read_cells-apart}
use libriscv_rust_binding.Examples.Emulator.Serves.{
  ctx, called-runs, entered-read, entered-Argument,
}

-- What the C library does with strings in the arena: `libriscv_memstring` finds the string that ends
-- within `maxlen` bytes where it is.
pub record FlatStrings {F : Type 0} (sys : Sys F) (machine : ℕ) (arena : FlatArena sys machine)
    : Type 0 where
  pub memstring_at :
      (src maxlen : ℕ) (text : List ℕ) (h : Host F)
      → src + maxlen ≤ arena.size
      → until_nul (read_bytes h.memory (arena.base + src) maxlen) ≡ some text
      → sys.libriscv_memstring machine src maxlen 0 h ≡ ((arena.base + src, length text), h)

-- Two ranges that do not meet.
abbrev pub Apart : (p n q k : ℕ) → Type 0
Apart p n q k = (p + n ≤ q) ⊎ (q + k ≤ p)

-- The guest's strings and the struct are in the arena, apart from each other.
pub record AreSent (size : ℕ) (at : Places) : Type 0 where
  pub strings_inside : at.strings + strings_size ≤ size
  pub hello_inside : at.hello + 256 ≤ size
  pub world_inside : at.world + 256 ≤ size
  pub hello_world : Apart at.hello 6 at.world 6
  pub hello_strings : Apart at.hello 6 at.strings strings_size
  pub world_strings : Apart at.world 6 at.strings strings_size
  pub hello_small : at.hello < 2 ^ 64
  pub world_small : at.world < 2 ^ 64

-- A string that ends in the first bytes.
until_nul-take :
    (k : ℕ) (xs text : List ℕ) → until_nul (take k xs) ≡ some text → until_nul xs ≡ some text
until_nul-take zero xs text held = absurd (ground (arith, held))
until_nul-take (suc k) [] text held = held
until_nul-take (suc k) (b ∷ xs) [] held = ground (arith, held)
until_nul-take (suc k) (b ∷ xs) (c ∷ text) held = ground (arith, held, until_nul-take k xs text)

module _ {F : Type 0} (sys : Sys F) (machine : ℕ) (arena : FlatArena sys machine) (h : Host F)
    (at : Places) (placed : AreSent arena.size at) (w : World) where
  abbrev memory : Memory
  memory = (store_strings at w).memory

  zeros-AllWords : (n : ℕ) → AllWords (replicate n 0)
  zeros-AllWords zero = tt
  zeros-AllWords (suc n) = (omega arith, zeros-AllWords n)

  sent-IsStrings : IsStrings (sent at)
  sent-IsStrings = record {
    count_small = omega arith;
    strings_length = refl;
    strings_words = (placed.hello_small, (placed.world_small, zeros-AllWords 30));
  }

  -- The struct does not reach a string that is apart from it.
  behind_struct :
      (p : ℕ)
      → Apart p 6 at.strings strings_size
      → Apart p 6 at.strings (length (strings_to_bytes (sent at)))
  behind_struct p apart =
      let n = length-strings (sent at) sent-IsStrings in
      elim apart [ inl before ↦ inl before | inr behind ↦ inr (omega (arith, n)) ]

  abbrev hello_stored : World
  hello_stored = store at.hello hello_text w

  abbrev world_stored : World
  world_stored = store at.world world_text hello_stored

  read-hello : read_bytes memory at.hello 6 ≡ hello_text
  unfolding store_strings
  read-hello =
      read_cells-apart world_stored.memory.byte at.strings (strings_to_bytes (sent at)) at.hello 6
        (behind_struct at.hello placed.hello_strings)
      ∙ read_cells-apart hello_stored.memory.byte at.world world_text at.hello 6 placed.hello_world
      ∙ read-store at.hello hello_text w

  read-world : read_bytes memory at.world 6 ≡ world_text
  unfolding store_strings
  read-world =
      read_cells-apart world_stored.memory.byte at.strings (strings_to_bytes (sent at)) at.world 6
        (behind_struct at.world placed.world_strings)
      ∙ read-store at.world world_text hello_stored

  read-strings : read_bytes memory at.strings strings_size ≡ strings_to_bytes (sent at)
  unfolding store_strings
  read-strings =
      subst
        (λ n.
          read_bytes (store at.strings (strings_to_bytes (sent at)) world_stored).memory at.strings
            n
          ≡ strings_to_bytes (sent at))
        (length-strings (sent at) sent-IsStrings)
        (read-store at.strings (strings_to_bytes (sent at)) world_stored)

  abbrev s : App F
  s = entered sys machine arena h at.strings (store_strings at w)

  -- What the C library finds at the address of a string whose bytes are there.
  found :
      (p : ℕ) (bytes text : List ℕ)
      → read_bytes memory p 6 ≡ bytes
      → until_nul bytes ≡ some text
      → until_nul (read_bytes s.host.memory (arena.base + p) 256) ≡ some text
  found p bytes text there held =
      until_nul-take 6 (read_bytes s.host.memory (arena.base + p) 256) text (
        ap (λ l. until_nul (take 6 l))
          (entered-read sys machine arena h at.strings p 256 (store_strings at w))
        ∙ ap until_nul (take-read_cells memory.byte p 6 256 (omega arith))
        ∙ ap until_nul there
        ∙ held)

  module _ (f : FlatStrings sys machine arena) where
    print-found :
        (p : ℕ) (text : List ℕ) (o : List Printed)
        → p + 256 ≤ arena.size
        → length text ≤ 256
        → until_nul (read_bytes s.host.memory (arena.base + p) 256) ≡ some text
        → is_ascii text ≡ true
        → print_string sys (ctx sys machine arena h) p (record s { output = o })
          ≡ (ok tt, record s { output = o ++ Printed.stdout_text "  " text ∷ [] })
    print-found p text o inside fits held ascii =
        let bytes : read_bytes s.host.memory (arena.base + p) (length text) ≡ text =
          sym (take-read_cells s.host.memory.byte (arena.base + p) (length text) 256 fits)
          ∙ take-until_nul (read_bytes s.host.memory (arena.base + p) 256) text held in
        print_string-answer sys (ctx sys machine arena h) p (arena.base + p) (length text)
          (record s { output = o }) (some text) (f.memstring_at p 256 text s.host inside held)
          (omega (arith, arena.base_present), bytes)
        ∙ ap (λ t. (ok tt, record s { output = o ++ Printed.stdout_text "  " t ∷ [] }))
            (from_utf8_lossy-ascii text ascii)

    -- "Hello" and "World".
    abbrev pub hello : List ℕ
    hello = 72 ∷ 101 ∷ 108 ∷ 108 ∷ 111 ∷ []

    abbrev pub world : List ℕ
    world = 87 ∷ 111 ∷ 114 ∷ 108 ∷ 100 ∷ []

    -- When the guest has stored its strings and makes the call, the host prints its greeting and the two
    -- strings, in their order. The C library has the guest's memory in an arena with the strings and
    -- their struct in it, apart from each other, and a whole register file.
    pub send_strings-printed :
        IsWhole (h.memory.registers arena.ptr)
        → (called sys machine arena h
            (host_function_500 sys)
            (entered sys machine arena h at.strings (store_strings at w))).output
          ≡ Printed.stdout "Hello from host function 0!"
            ∷ Printed.stdout_text "  " hello
            ∷ Printed.stdout_text "  " world
            ∷ []
    unfolding host_function_500 print_strings
    send_strings-printed whole =
        let c = ctx sys machine arena h in
        let greeting : List Printed = Printed.stdout "Hello from host function 0!" ∷ [] in
        let decoded : strings_from_bytes
              (read_bytes s.host.memory (arena.base + at.strings) strings_size)
            ≡ sent at =
          ap strings_from_bytes (
            entered-read sys machine arena h at.strings at.strings strings_size (store_strings at w)
            ∙ read-strings)
          ∙ strings-strings (sent at) sent-IsStrings in
        rw
          (
            called-runs sys machine arena h (host_function_500 sys) s,
            first_argument-found sys c at.strings (record s { output = greeting })
                (entered-Argument sys machine arena h at.strings (store_strings at w) whole),
            read_pod-at sys c strings_size at.strings (arena.base + at.strings) s.host (omega arith)
                (omega (arith, arena.base_present))
                (arena.memview_at at.strings strings_size s.host placed.strings_inside),
            decoded,
            print-found at.hello hello greeting placed.hello_inside (omega arith)
                (found at.hello hello_text hello read-hello refl) refl,
            print-found at.world world (greeting ++ Printed.stdout_text "  " hello ∷ [])
                placed.world_inside (omega arith) (found at.world world_text world read-world refl)
                refl,
          )
          refl
