-- ===== src/Pages.antt =====
-- src/lib.rs: `PageAttributes` and its conversion from and to the C struct.
pub mod RoundTrip
use libriscv_rust_binding.Common.{ℕ, Bool, not, is_zero, from_bool}
use libriscv_rust_binding.Raw.{RiscvPageAttributes}

pub record PageAttributes : Type 0 where
  pub read : Bool
  pub write : Bool
  pub execute : Bool
  pub copy_on_write : Bool
  pub non_owning : Bool
  pub dont_fork : Bool
  pub user_defined : ℕ

unfoldable pub from_raw : RiscvPageAttributes → PageAttributes
from_raw raw = record {
  read = not (is_zero raw.read);
  write = not (is_zero raw.write);
  execute = not (is_zero raw.exec);
  copy_on_write = not (is_zero raw.is_cow);
  non_owning = not (is_zero raw.non_owning);
  dont_fork = not (is_zero raw.dont_fork);
  user_defined = raw.user_defined;
}

unfoldable pub into_raw : PageAttributes → RiscvPageAttributes
into_raw self = record {
  read = from_bool self.read;
  write = from_bool self.write;
  exec = from_bool self.execute;
  is_cow = from_bool self.copy_on_write;
  non_owning = from_bool self.non_owning;
  dont_fork = from_bool self.dont_fork;
  user_defined = self.user_defined;
}
