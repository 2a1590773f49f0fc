-- ===== src/Options/Orders.antt =====
-- The order in which the methods of `OptionsBuilder` are called.
use libriscv_rust_binding.Common.{◌≡◌, ◌≢◌, arith}
use libriscv_rust_binding.Options.{OptionsBuilder}
use libriscv_rust_binding.Options.Setters.{Setting, apply, slot}

-- Calls of the builder's methods about different options can be exchanged.
pub apply_comm :
    (s t : Setting) (b : OptionsBuilder)
    → slot s ≢ slot t
    → apply s (apply t b) ≡ apply t (apply s b)
unfolding apply
apply_comm (Setting.to_max_memory bytes) t b h = ground arith
apply_comm s t b h = ground arith

-- Of two calls about one option the later alone counts.
pub apply_last :
    (s t : Setting) (b : OptionsBuilder) → slot s ≡ slot t → apply s (apply t b) ≡ apply s b
unfolding apply
apply_last s t b h = ground arith
