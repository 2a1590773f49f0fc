-- ===== src/Build.antt =====
-- libriscv-sys/build.rs: what the build script writes, compiles and links. A path is the list of its
-- parts; the compiler, the file system and the output of `println!` are the plan that `run` returns.
pub mod Agree
use libriscv_rust_binding.Common.{
  String, str_eq, str_append, Bool, true, false, ◌&&◌, ◌||◌, Option, none, some, List, [], ◌∷◌,
  ◌++◌, map, if◌then◌else◌,
}

abbrev pub FilePath : Type 0
FilePath = List String

-- What the script asks of its environment: the variables, and what `cc` says of the compiler.
pub record Environment : Type 0 where
  pub variable : String → Option String
  pub is_like_clang : Bool
  pub is_like_gnu : Bool
  pub bindgen : Bool

-- The variables that `main` reads at its start.
pub record Config : Type 0 where
  pub out_dir : FilePath
  pub manifest_dir : FilePath
  pub target_env : String
  pub target_os : String
  pub binary_translation : Bool
  pub threaded : Bool

abbrev pub is_some {ℓ} : {A : Type ℓ} → Option A → Bool
is_some none = false
is_some (some a) = true

abbrev pub unwrap_or_default : Option String → String
unwrap_or_default none = ""
unwrap_or_default (some s) = s

-- `env::var(…).unwrap()` on a variable that is not set panics: `none`.
unfoldable pub config : Environment → Option Config
config e = elim (e.variable "OUT_DIR") [
  | none ↦ none
  | some out_dir ↦ elim (e.variable "CARGO_MANIFEST_DIR") [
    | none ↦ none
    | some manifest_dir ↦ elim (e.variable "CARGO_CFG_TARGET_OS") [
      | none ↦ none
      | some target_os ↦ some (record {
        out_dir = out_dir ∷ [];
        manifest_dir = manifest_dir ∷ [];
        target_env = unwrap_or_default (e.variable "CARGO_CFG_TARGET_ENV");
        target_os = target_os;
        binary_translation = is_some (e.variable "CARGO_FEATURE_BINARY_TRANSLATION");
        threaded = e.is_like_clang || e.is_like_gnu;
      })
    ]
  ]
]

unfoldable pub binary_translation_define : Bool → String
binary_translation_define binary_translation =
    if binary_translation
    then "#define RISCV_BINARY_TRANSLATION"
    else "/* #undef RISCV_BINARY_TRANSLATION */"

unfoldable pub threaded_define : Bool → String
threaded_define threaded =
    if threaded then "#define RISCV_THREADED" else "/* #undef RISCV_THREADED */"

-- The lines of libriscv_settings.h.
unfoldable pub settings_h : Config → List String
unfolding binary_translation_define threaded_define
settings_h c =
    "#ifndef LIBRISCV_SETTINGS_H"
    ∷ "#define LIBRISCV_SETTINGS_H"
    ∷ ""
    ∷ "#define RISCV_EXT_A"
    ∷ "#define RISCV_EXT_C"
    ∷ "/* #undef RISCV_EXT_V */"
    ∷ "/* #undef RISCV_32I */"
    ∷ "#define RISCV_64I"
    ∷ "/* #undef RISCV_128I */"
    ∷ "/* #undef RISCV_FCSR */"
    ∷ "/* #undef RISCV_DEBUG */"
    ∷ "/* #undef RISCV_EXPERIMENTAL */"
    ∷ "#define RISCV_MEMORY_TRAPS"
    ∷ "/* #undef RISCV_MULTIPROCESS */"
    ∷ binary_translation_define c.binary_translation
    ∷ "#define RISCV_FLAT_RW_ARENA"
    ∷ "#define RISCV_VIRTUAL_PAGING"
    ∷ "/* #undef RISCV_ENCOMPASSING_ARENA */"
    ∷ threaded_define c.threaded
    ∷ "/* #undef RISCV_TAILCALL_DISPATCH */"
    ∷ "/* #undef RISCV_LIBTCC */"
    ∷ "/* #undef RISCV_ASMJIT */"
    ∷ ""
    ∷ "#define RISCV_VERSION_MAJOR 1"
    ∷ "#define RISCV_VERSION_MINOR 20"
    ∷ ""
    ∷ "#endif"
    ∷ []

unfoldable pub base_sources : List String
base_sources =
    "lib/libriscv/cpu.cpp" ∷ "lib/libriscv/debug.cpp" ∷ "lib/libriscv/decode_bytecodes.cpp"
    ∷ "lib/libriscv/decoder_cache.cpp" ∷ "lib/libriscv/machine.cpp"
    ∷ "lib/libriscv/machine_defaults.cpp" ∷ "lib/libriscv/memory.cpp"
    ∷ "lib/libriscv/memory_elf.cpp" ∷ "lib/libriscv/memory_mmap.cpp" ∷ "lib/libriscv/memory_rw.cpp"
    ∷ "lib/libriscv/native_libc.cpp" ∷ "lib/libriscv/native_threads.cpp"
    ∷ "lib/libriscv/posix/minimal.cpp" ∷ "lib/libriscv/posix/signals.cpp"
    ∷ "lib/libriscv/posix/threads.cpp" ∷ "lib/libriscv/posix/socket_calls.cpp"
    ∷ "lib/libriscv/serialize.cpp" ∷ "lib/libriscv/shared_rodata.cpp"
    ∷ "lib/libriscv/util/crc32c.cpp" ∷ "lib/libriscv/rv64i.cpp" ∷ []

unfoldable pub dispatch_sources : Bool → List String
dispatch_sources threaded =
    if threaded
    then ("lib/libriscv/threaded_dispatch.cpp" ∷ "lib/libriscv/threaded_inaccurate_dispatch.cpp"
        ∷ [])
    else ("lib/libriscv/bytecode_dispatch.cpp" ∷ [])

-- The tests are `target_os == "windows"` and `target_env == "msvc"`.
unfoldable pub system_call_source : (windows : Bool) → String
system_call_source windows =
    if windows then "lib/libriscv/win32/system_calls.cpp" else "lib/libriscv/linux/system_calls.cpp"

unfoldable pub translation_sources : (windows msvc : Bool) → List String
translation_sources windows msvc =
    ("lib/libriscv/tr_api.cpp"
      ∷ "lib/libriscv/tr_emit.cpp"
      ∷ "lib/libriscv/tr_translate.cpp"
      ∷ (if windows && msvc
          then "lib/libriscv/win32/tr_msvc.cpp"
          else "lib/libriscv/tr_compiler.cpp")
      ∷ [])
    ++ (if windows then "lib/libriscv/win32/dlfcn.cpp" ∷ [] else [])

unfoldable pub select_sources : (threaded binary_translation windows msvc : Bool) → List String
unfolding base_sources dispatch_sources system_call_source translation_sources
select_sources threaded binary_translation windows msvc =
    base_sources
    ++ (dispatch_sources threaded
        ++ (system_call_source windows
            ∷ (if binary_translation then translation_sources windows msvc else [])))

unfoldable pub sources : Config → List String
unfolding select_sources
sources c =
    select_sources c.threaded c.binary_translation (str_eq c.target_os "windows")
      (str_eq c.target_env "msvc")

-- The lines of libriscv_wrapper.cpp.
unfoldable pub wrapper_cpp : List String
wrapper_cpp =
    "#include <cstdio>" ∷ "#ifdef stdout" ∷ "#define _LIBRISCV_SAVED_STDOUT stdout"
    ∷ "#undef stdout" ∷ "#endif" ∷ "#include \"libriscv.cpp\"" ∷ "#ifdef _LIBRISCV_SAVED_STDOUT"
    ∷ "#define stdout _LIBRISCV_SAVED_STDOUT" ∷ "#undef _LIBRISCV_SAVED_STDOUT" ∷ "#endif" ∷ []

unfoldable pub link_libs : Config → List String
link_libs c =
    (if str_eq c.target_os "macos"
      then "framework=Security" ∷ "framework=Foundation" ∷ []
      else if str_eq c.target_os "windows"
      then "wsock32" ∷ "ws2_32" ∷ []
      else [])
    ++ (if c.binary_translation
          && (str_eq c.target_os "linux"
              || str_eq c.target_os "freebsd"
              || str_eq c.target_os "android")
        then "dl" ∷ []
        else [])

-- What bindgen is told: the header, the directories of its `-I` arguments, the patterns of the names
-- that it keeps, and where the bindings go.
pub record Bindgen : Type 0 where
  pub header : FilePath
  pub include_dirs : List FilePath
  pub allowlist_function : List String
  pub allowlist_type : List String
  pub allowlist_var : List String
  pub output : FilePath

-- Without the feature `bindgen` the bindings are those of the repository, and a change of them runs
-- the script again.
unfoldable pub generate_bindings :
    (bindgen : Bool)
    → (wrapper_h lib_dir out_dir libriscv_dir : FilePath) → Option Bindgen × List String
generate_bindings bindgen wrapper_h lib_dir out_dir libriscv_dir =
    if bindgen
    then (
      some (record {
        header = wrapper_h;
        include_dirs = lib_dir ∷ out_dir ∷ (libriscv_dir ++ "c" ∷ []) ∷ [];
        allowlist_function = "libriscv_.*" ∷ [];
        allowlist_type = "RISCV.*" ∷ "riscv_.*" ∷ [];
        allowlist_var = "RISCV_.*" ∷ [];
        output = out_dir ++ "bindings.rs" ∷ [];
      }),
      [],
    )
    else (none, "src/bindings.rs" ∷ [])

-- What the script does: the files that it writes with their lines, what it compiles as which C++ with
-- which directories and flags, what it links, what bindgen does if it makes the bindings, and when
-- the script is to run again.
pub record Plan : Type 0 where
  pub written : List (FilePath × List String)
  pub standard : String
  pub includes : List FilePath
  pub files : List FilePath
  pub flags : List String
  pub links : List String
  pub bindings : Option Bindgen
  pub rerun : List String

unfoldable pub plan : Config → (bindgen : Bool) → Plan
unfolding settings_h sources wrapper_cpp link_libs generate_bindings
plan c bindgen =
    let libriscv_dir = c.manifest_dir ++ "libriscv-c" ∷ [] in
    let lib_dir = libriscv_dir ++ "lib" ∷ [] in
    let wrapper_cpp_path = c.out_dir ++ "libriscv_wrapper.cpp" ∷ [] in
    let (bindings, rerun) =
      generate_bindings bindgen (c.manifest_dir ++ "wrapper.h" ∷ []) lib_dir c.out_dir
        libriscv_dir in
    record {
      written =
          (c.out_dir ++ "libriscv_settings.h" ∷ [], settings_h c)
          ∷ (wrapper_cpp_path, wrapper_cpp)
          ∷ [];
      standard = "c++20";
      includes = lib_dir ∷ c.out_dir ∷ (libriscv_dir ++ "c" ∷ []) ∷ [];
      files =
          map (λ (source : String). libriscv_dir ++ source ∷ []) (sources c)
          ++ wrapper_cpp_path ∷ [];
      flags = if c.threaded then "-Wall" ∷ "-Wextra" ∷ [] else [];
      links = link_libs c;
      bindings = bindings;
      rerun = rerun ++ ("wrapper.h" ∷ "libriscv-c/c" ∷ "libriscv-c/lib" ∷ []);
    }

-- `main`.
unfoldable pub run : Environment → Option Plan
unfolding config plan
run e = elim (config e) [ none ↦ none | some c ↦ some (plan c e.bindgen) ]
