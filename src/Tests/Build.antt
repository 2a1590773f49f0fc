-- ===== src/Tests/Build.antt =====
-- libriscv-sys/build.rs: the settings and the sources, at a concrete target.
use libriscv_rust_binding.Common.{true, [], ◌∷◌}
use libriscv_rust_binding.Build.{Config, settings_h, sources}
use libriscv_rust_binding.Build.Agree.{Agree, settings_h-sources}

abbrev linux : Config
linux = record {
  out_dir = "out" ∷ [];
  manifest_dir = "libriscv-sys" ∷ [];
  target_env = "gnu";
  target_os = "linux";
  binary_translation = true;
  threaded = true;
}

settings_h-sources_example : Agree (settings_h linux) (sources linux)
settings_h-sources_example = settings_h-sources linux
