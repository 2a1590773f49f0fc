-- ===== src/Pages/RoundTrip.antt =====
-- src/lib.rs: the conversions of page attributes, one after the other.
use libriscv_rust_binding.Common.{
  ◌≡◌, refl, Bool, true, false, not, ℤ, pos, ◌⊎◌, inl, inr, ◌↔◌, is_zero, from_bool, subst,
}
use libriscv_rust_binding.Raw.{RiscvPageAttributes}
use libriscv_rust_binding.Pages.{PageAttributes, from_raw, into_raw}

-- A flag as Rust writes it.
abbrev pub IsFlag : ℤ → Type 0
IsFlag z = (z ≡ pos 0) ⊎ (z ≡ pos 1)

pub record HasFlags (raw : RiscvPageAttributes) : Type 0 where
  pub read : IsFlag raw.read
  pub write : IsFlag raw.write
  pub exec : IsFlag raw.exec
  pub is_cow : IsFlag raw.is_cow
  pub non_owning : IsFlag raw.non_owning
  pub dont_fork : IsFlag raw.dont_fork

not-is_zero-from_bool : (b : Bool) → not (is_zero (from_bool b)) ≡ b
not-is_zero-from_bool true = refl
not-is_zero-from_bool false = refl

from_bool-IsFlag : (b : Bool) → IsFlag (from_bool b)
from_bool-IsFlag true = inr refl
from_bool-IsFlag false = inl refl

from_bool-not-is_zero : (z : ℤ) → IsFlag z → from_bool (not (is_zero z)) ≡ z
from_bool-not-is_zero z (inl e) = rw e
from_bool-not-is_zero z (inr e) = rw e

-- Attributes survive the way into the C struct and back.
pub from_raw-into_raw : (a : PageAttributes) → from_raw (into_raw a) ≡ a
unfolding from_raw into_raw
from_raw-into_raw a = λ i. record {
  read = not-is_zero-from_bool a.read i;
  write = not-is_zero-from_bool a.write i;
  execute = not-is_zero-from_bool a.execute i;
  copy_on_write = not-is_zero-from_bool a.copy_on_write i;
  non_owning = not-is_zero-from_bool a.non_owning i;
  dont_fork = not-is_zero-from_bool a.dont_fork i;
  user_defined = a.user_defined;
}

into_raw-HasFlags : (a : PageAttributes) → HasFlags (into_raw a)
unfolding into_raw
into_raw-HasFlags a = record {
  read = from_bool-IsFlag a.read;
  write = from_bool-IsFlag a.write;
  exec = from_bool-IsFlag a.execute;
  is_cow = from_bool-IsFlag a.copy_on_write;
  non_owning = from_bool-IsFlag a.non_owning;
  dont_fork = from_bool-IsFlag a.dont_fork;
}

-- The C struct survives the way into Rust and back exactly when each of its flags is 0 or 1.
pub into_raw-from_raw : (raw : RiscvPageAttributes) → (into_raw (from_raw raw) ≡ raw) ↔ HasFlags raw
unfolding from_raw into_raw
into_raw-from_raw raw = (
  λ e. subst HasFlags e (into_raw-HasFlags (from_raw raw)),
  λ h i. record {
    read = from_bool-not-is_zero raw.read h.read i;
    write = from_bool-not-is_zero raw.write h.write i;
    exec = from_bool-not-is_zero raw.exec h.exec i;
    is_cow = from_bool-not-is_zero raw.is_cow h.is_cow i;
    non_owning = from_bool-not-is_zero raw.non_owning h.non_owning i;
    dont_fork = from_bool-not-is_zero raw.dont_fork h.dont_fork i;
    user_defined = raw.user_defined;
  },
)
