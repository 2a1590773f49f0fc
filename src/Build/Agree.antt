-- ===== src/Build/Agree.antt =====
-- libriscv-sys/build.rs: the settings beside the files that are compiled.
use libriscv_rust_binding.Common.{
  String, str_eq, ◌≡◌, refl, Bool, true, false, not, ◌&&◌, ◌||◌, List, [], ◌∷◌,
}
use libriscv_rust_binding.Build.{
  Config, base_sources, dispatch_sources, system_call_source, translation_sources, select_sources,
  sources, settings_h, binary_translation_define, threaded_define,
}

abbrev pub elem : String → List String → Bool
elem s [] = false
elem s (x ∷ xs) = str_eq s x || elem s xs

abbrev pub all_distinct : List String → Bool
all_distinct [] = true
all_distinct (x ∷ xs) = not (elem x xs) && all_distinct xs

-- What the settings and the list of sources have to say of one another.
abbrev pub Agree : (settings files : List String) → Type 0
Agree settings files =
    (all_distinct files ≡ true)
    × (elem "lib/libriscv/threaded_dispatch.cpp" files ≡ elem "#define RISCV_THREADED" settings)
    × (elem "lib/libriscv/threaded_inaccurate_dispatch.cpp" files
        ≡ elem "#define RISCV_THREADED" settings)
    × (elem "lib/libriscv/bytecode_dispatch.cpp" files
        ≡ not (elem "#define RISCV_THREADED" settings))
    × (elem "lib/libriscv/tr_translate.cpp" files
        ≡ elem "#define RISCV_BINARY_TRANSLATION" settings)
    × (elem "lib/libriscv/linux/system_calls.cpp" files
        ≡ not (elem "lib/libriscv/win32/system_calls.cpp" files))

select-Agree :
    (threaded binary_translation windows msvc : Bool) (c : Config)
    → c.threaded ≡ threaded
    → c.binary_translation ≡ binary_translation
    → Agree (settings_h c) (select_sources threaded binary_translation windows msvc)
unfolding select_sources base_sources dispatch_sources system_call_source translation_sources
    settings_h binary_translation_define threaded_define
select-Agree true true true true c e f = rw (e, f) (refl, refl, refl, refl, refl, refl)
select-Agree true true true false c e f = rw (e, f) (refl, refl, refl, refl, refl, refl)
select-Agree true true false true c e f = rw (e, f) (refl, refl, refl, refl, refl, refl)
select-Agree true true false false c e f = rw (e, f) (refl, refl, refl, refl, refl, refl)
select-Agree true false true true c e f = rw (e, f) (refl, refl, refl, refl, refl, refl)
select-Agree true false true false c e f = rw (e, f) (refl, refl, refl, refl, refl, refl)
select-Agree true false false true c e f = rw (e, f) (refl, refl, refl, refl, refl, refl)
select-Agree true false false false c e f = rw (e, f) (refl, refl, refl, refl, refl, refl)
select-Agree false true true true c e f = rw (e, f) (refl, refl, refl, refl, refl, refl)
select-Agree false true true false c e f = rw (e, f) (refl, refl, refl, refl, refl, refl)
select-Agree false true false true c e f = rw (e, f) (refl, refl, refl, refl, refl, refl)
select-Agree false true false false c e f = rw (e, f) (refl, refl, refl, refl, refl, refl)
select-Agree false false true true c e f = rw (e, f) (refl, refl, refl, refl, refl, refl)
select-Agree false false true false c e f = rw (e, f) (refl, refl, refl, refl, refl, refl)
select-Agree false false false true c e f = rw (e, f) (refl, refl, refl, refl, refl, refl)
select-Agree false false false false c e f = rw (e, f) (refl, refl, refl, refl, refl, refl)

-- For every target and compiler: no source is compiled twice; the settings define
-- `RISCV_THREADED` exactly if the two files of the threaded dispatch are compiled, and exactly if that
-- of the bytecode dispatch is not; they define `RISCV_BINARY_TRANSLATION` exactly if the translator
-- is compiled; and the system calls of exactly one platform are.
pub settings_h-sources : (c : Config) → Agree (settings_h c) (sources c)
unfolding sources
settings_h-sources c =
    select-Agree c.threaded c.binary_translation (str_eq c.target_os "windows")
      (str_eq c.target_env "msvc") c refl refl
