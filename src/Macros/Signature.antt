-- ===== src/Macros/Signature.antt =====
-- Which functions the macros accept.
use libriscv_rust_binding.Common.{
  ℕ, String, ◌≡◌, refl, ◌↔◌, true, false, List, [], ◌∷◌, ok, is_ok, arith, ap, ◌∙◌, ap₂, eq_iff,
  ◌⊎◌, u32_max, ◌≤◌,
}
use libriscv_rust_binding.Macros.Syntax.{
  RustType, Segments, FnArg, ItemFn, last_segment, Meta, Lit, Expr,
}
use libriscv_rust_binding.Macros.{
  validate_context_arg, last_is, is_context_type, is_ident, parse_syscall_id, wrap_syscall_result,
  syscall_result,
}
use libriscv_rust_binding.Macros.Handler.{
  check_signature, Compiler, Meaning, takes_context, output_meaning,
}

-- A plain safe function of one argument `&mut …::Context`.
pub record IsHandlerFn (context : String) (f : ItemFn) : Type 0 where
  pub not_async : f.is_async ≡ false
  pub safe : f.is_unsafe ≡ false
  pub no_generics : f.generics ≡ 0
  pub not_variadic : f.is_variadic ≡ false
  pub segments : Segments
  pub inputs : f.inputs ≡ FnArg.typed (RustType.reference true (RustType.path segments)) ∷ []
  pub named : last_is (last_segment segments) context ≡ true

context_type-path :
    (ty : RustType) (context : String)
    → is_context_type ty context ≡ true
    → (segments : Segments) × (ty ≡ RustType.reference true (RustType.path segments))
      × (last_is (last_segment segments) context ≡ true)
context_type-path (RustType.reference true (RustType.path segments)) context h = (segments, refl, h)
context_type-path (RustType.reference true (RustType.reference m t)) context h = cc
context_type-path (RustType.reference true RustType.other) context h = cc
context_type-path (RustType.reference false t) context h = cc
context_type-path (RustType.path segments) context h = cc
context_type-path RustType.other context h = cc

validate-args :
    (f : ItemFn) (context : String) (args : List FnArg)
    → f.inputs ≡ args
    → is_ok (validate_context_arg f context) ≡ true
    → (segments : Segments) × (args
        ≡ FnArg.typed (RustType.reference true (RustType.path segments)) ∷ [])
      × (last_is (last_segment segments) context ≡ true)
unfolding validate_context_arg
validate-args f context [] e h = absurd (ground arith)
validate-args f context (FnArg.receiver ∷ []) e h = absurd (ground arith)
validate-args f context (FnArg.typed ty ∷ []) e h =
    let fits : is_context_type ty context ≡ true = ground arith in
    let (segments, shape, named) = context_type-path ty context fits in
    (segments, ap (λ t. FnArg.typed t ∷ []) shape, named)
validate-args f context (arg ∷ next ∷ rest) e h = absurd (ground arith)

check_signature-guards :
    (name context : String) (f : ItemFn)
    → is_ok (check_signature name context f) ≡ true
    → (f.is_async ≡ false)
      × (f.is_unsafe ≡ false)
      × (f.generics ≡ 0)
      × (f.is_variadic ≡ false)
      × (is_ok (validate_context_arg f context) ≡ true)
unfolding check_signature
check_signature-guards name context f h = ground arith

-- The four macros accept exactly the plain safe functions whose one argument is a mutable reference
-- to the context that the macro is for.
pub check_signature_iff :
    (name context : String) (f : ItemFn)
    → (is_ok (check_signature name context f) ≡ true) ↔ IsHandlerFn context f
unfolding check_signature validate_context_arg
check_signature_iff name context f = (
  λ h.
      let (not_async, safe, no_generics, not_variadic, valid) =
        check_signature-guards name context f h in
      let (segments, inputs, named) = validate-args f context f.inputs refl valid in
      record {
        not_async = not_async;
        safe = safe;
        no_generics = no_generics;
        not_variadic = not_variadic;
        segments = segments;
        inputs = inputs;
        named = named;
      },
  λ is. ground (arith, is.not_async, is.safe, is.no_generics, is.not_variadic, is.inputs, is.named),
)

is_ident-eq : (path : List String) (name : String) → is_ident path name ≡ true → path ≡ name ∷ []
is_ident-eq [] name h = cc
is_ident-eq (segment ∷ []) name h = ap (λ s. s ∷ []) ((eq_iff segment name).0 h)
is_ident-eq (segment ∷ next ∷ rest) name h = cc

abbrev id_meta : ℕ → Meta
id_meta n = Meta.name_value ("id" ∷ []) (Expr.lit (Lit.int n))

parse_syscall_id-form :
    (meta : Meta) (n : ℕ) → parse_syscall_id meta ≡ ok n → (meta ≡ id_meta n) × (n ≤ u32_max)
unfolding parse_syscall_id
parse_syscall_id-form (Meta.name_value path (Expr.lit (Lit.int value))) n h =
    let found : is_ident path "id" ≡ true = ground arith in
    let same : value ≡ n = ground arith in
    (
      ap₂ (λ (p : List String) (v : ℕ). Meta.name_value p (Expr.lit (Lit.int v)))
          (is_ident-eq path "id" found) same,
      ground arith,
    )
parse_syscall_id-form (Meta.name_value path (Expr.lit Lit.other)) n h = absurd (ground arith)
parse_syscall_id-form (Meta.name_value path Expr.other) n h = absurd (ground arith)
parse_syscall_id-form Meta.other n h = cc

parse_syscall_id-id_meta : (n : ℕ) → n ≤ u32_max → parse_syscall_id (id_meta n) ≡ ok n
unfolding parse_syscall_id
parse_syscall_id-id_meta n small = ground (arith, (eq_iff "id" "id").1 refl)

-- An attribute's argument gives an id exactly if it is `id = n` with an integer literal that fits
-- a `u32`, and then the id is that number.
pub parse_syscall_id_iff :
    (meta : Meta) (n : ℕ)
    → (parse_syscall_id meta ≡ ok n)
      ↔ ((meta ≡ Meta.name_value ("id" ∷ []) (Expr.lit (Lit.int n))) × (n ≤ u32_max))
parse_syscall_id_iff meta n = (
  parse_syscall_id-form meta n,
  λ (e, small). ap parse_syscall_id e ∙ parse_syscall_id-id_meta n small,
)

-- What the compiler asks for beyond the macro: the name `SyscallContext` means the wrapper's type, the
-- function has no result, or one of the unit type or a `SyscallResult`, and as it is given back it is
-- well typed.
pub record FitsTrampoline (c : Compiler) (f : ItemFn) : Type 0 where
  pub context : takes_context c f.inputs ≡ true
  pub output :
      (output_meaning c f.output ≡ Meaning.unit_type)
      ⊎ (output_meaning c f.output ≡ Meaning.syscall_result)
  pub well_typed : c.is_well_typed (wrap_syscall_result f) ≡ true
