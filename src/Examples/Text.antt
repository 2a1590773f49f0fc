-- ===== src/Examples/Text.antt =====
-- examples/advanced_syscalls.rs: `write_c_string`.
use mathlib.Core.Option
use libriscv_rust_binding.Common.{
  ℕ, zero, suc, ◌-◌, ◌<◌, min, ◌≡◌, refl, ap, sym, ◌∙◌, Option, none, some, List, [], ◌∷◌, ◌++◌,
  arith, ◌==◌, if◌then◌else◌, length, take, drop, set, length-take, length-drop, length-append,
  false, ok,
}
use libriscv_rust_binding.Memory.{Memory, write_bytes}
use libriscv_rust_binding.Memory.Strings.{first_nul}
use libriscv_rust_binding.Slice.{Slice, contents}
use libriscv_rust_binding.Error.Action.{Action}

-- The bytes of the slice come back as the second result.
unfoldable pub write_c_string : (dst text : List ℕ) → ℕ × List ℕ
write_c_string dst text =
    if length dst == 0
    then (0, dst)
    else (let max = length dst - 1 in
        let len = min (length text) max in
        let dst = take len text ++ drop len dst in (len, set dst len 0))

-- The same on a slice of the host's memory.
unfoldable pub write_c_string_at : Slice → (text : List ℕ) → Action Memory ℕ
unfolding write_c_string
write_c_string_at dst text m =
    let (len, bytes) = write_c_string (contents m dst) text in
    (ok len, write_bytes m dst.address bytes)

-- The C string at the start of a buffer, if it ends there.
abbrev pub until_nul : List ℕ → Option (List ℕ)
until_nul [] = none
until_nul (b ∷ bs) = if b == 0 then some [] else Option.map (λ s. b ∷ s) (until_nul bs)

-- A write at the end of the copy ends the string there, and the rest stays.
set-append : (xs ys : List ℕ) → 0 < length ys → set (xs ++ ys) (length xs) 0 ≡ xs ++ 0 ∷ drop 1 ys
set-append [] [] h = absurd (omega arith)
set-append [] (y ∷ ys) h = refl
set-append (x ∷ xs) ys h = ap (λ l. x ∷ l) (set-append xs ys h)

drop-drop : (n : ℕ) (xs : List ℕ) → drop 1 (drop n xs) ≡ drop (suc n) xs
drop-drop zero xs = refl
drop-drop (suc n) [] = refl
drop-drop (suc n) (x ∷ xs) = drop-drop n xs

until_nul-take :
    (n : ℕ) (text rest : List ℕ)
    → first_nul text ≡ none
    → until_nul (take n text ++ 0 ∷ rest) ≡ some (take n text)
until_nul-take zero text rest clean = refl
until_nul-take (suc n) [] rest clean = refl
until_nul-take (suc n) (b ∷ text) rest clean = ground (arith, until_nul-take n text rest)

drop-behind : (xs ys : List ℕ) (n : ℕ) → n ≡ length xs → drop (suc n) (xs ++ 0 ∷ ys) ≡ ys
drop-behind [] ys zero e = refl
drop-behind [] ys (suc n) e = absurd (omega arith)
drop-behind (x ∷ xs) ys zero e = absurd (omega arith)
drop-behind (x ∷ xs) ys (suc n) e = drop-behind xs ys n (omega arith)

write_c_string-written :
    (dst text : List ℕ)
    → 0 < length dst
    → let len = min (length text) (length dst - 1) in
      write_c_string dst text ≡ (len, take len text ++ 0 ∷ drop (suc len) dst)
unfolding write_c_string
write_c_string-written dst text room =
    let len : ℕ = min (length text) (length dst - 1) in
    let test : (length dst == 0) ≡ false = ground arith in
    let n : length (take len text) ≡ len = length-take len text (omega arith) in
    let k = length-drop len dst (omega arith) in
    rw test (
      ap (λ (l : List ℕ). (len, l))
        (ap (λ i. set (take len text ++ drop len dst) i 0) (sym n)
          ∙ set-append (take len text) (drop len dst) (omega (arith, k))
          ∙ ap (λ (l : List ℕ). take len text ++ 0 ∷ l) (drop-drop len dst)))

-- Into a buffer with room for at least a NUL, a text without NUL bytes is written as a C string: all of
-- it, or as much as fits; the returned length is that of the string, which leaves room for the NUL.
-- The buffer keeps its length, and what lies behind the NUL stays.
pub write_c_string-until_nul :
    (dst text : List ℕ)
    → 0 < length dst
    → first_nul text ≡ none
    → let (len, written) = write_c_string dst text in
      (len ≡ min (length text) (length dst - 1))
      × (until_nul written ≡ some (take len text))
      × (length written ≡ length dst)
      × (drop (suc len) written ≡ drop (suc len) dst)
write_c_string-until_nul dst text room clean =
    let len : ℕ = min (length text) (length dst - 1) in
    let n : length (take len text) ≡ len = length-take len text (omega arith) in
    let k = length-drop (suc len) dst (omega arith) in
    let l = length-append (take len text) (0 ∷ drop (suc len) dst) in
    rw (write_c_string-written dst text room) (
      refl,
      until_nul-take len text _ clean,
      omega (arith, n, k, l),
      drop-behind (take len text) _ len (sym n),
    )
