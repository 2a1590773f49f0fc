-- ===== src/Macros/Syntax.antt =====
-- The syntax trees that the macros take apart, as far as they look into them.
use libriscv_rust_binding.Common.{ℕ, String, Bool, Option, none, some, List, Result, ok, err}

-- A type is a reference, mutable or not, a path, or something else. Of the arguments of a path's
-- segment only the first between angle brackets counts, and that only if it is a type.
mutual
  pub data RustType : Type 0 where
    reference : Bool → RustType → RustType
    path : Segments → RustType
    other : RustType

  pub data Segments : Type 0 where
    end : Segments
    segment : String → Arguments → Segments → Segments

  pub data Arguments : Type 0 where
    no_arguments angle_other parenthesized : Arguments
    angle_type : RustType → Arguments

-- `segments.last()`.
abbrev pub last_from : String × Arguments → Segments → String × Arguments
last_from last Segments.end = last
last_from last (Segments.segment ident arguments rest) = last_from (ident, arguments) rest

abbrev pub last_segment : Segments → Option (String × Arguments)
last_segment Segments.end = none
last_segment (Segments.segment ident arguments rest) = some (last_from (ident, arguments) rest)

pub data FnArg : Type 0 where
  receiver : FnArg
  typed : RustType → FnArg

-- A function's body: as written, or the closure call with the type of its `result`.
pub data Block : Type 0 where
  source : ℕ → Block
  wrapped : RustType → Block → Block

pub data Lit : Type 0 where
  int : ℕ → Lit
  other : Lit

pub data Expr : Type 0 where
  lit : Lit → Expr
  other : Expr

pub data Meta : Type 0 where
  name_value : List String → Expr → Meta
  other : Meta

-- The messages of `syn::Error`, by what they say.
pub data MacroError : Type 0 where
  one_argument argument_type : (expected : String) → MacroError
  takes_no_arguments no_async expects_safe no_generics no_variadics : (name : String) → MacroError
  attribute_form not_an_integer out_of_range inline_module syntax : MacroError
  duplicate_syscall_id : ℕ → MacroError

abbrev pub Parsed : Type 0 → Type 0
Parsed A = Result MacroError A

infixl 5 ◌>>=◌ ◌>>◌
abbrev pub ◌>>=◌ : {A B : Type 0} → Parsed A → (A → Parsed B) → Parsed B
ok a >>= k = k a
err e >>= k = err e

abbrev pub ◌>>◌ : {B : Type 0} → Parsed (Unit {0}) → Parsed B → Parsed B
m >> k = m >>= λ _. k

-- `args` is what `parse_args::<Meta>` gives.
pub record Attribute : Type 0 where
  pub path : List String
  pub args : Parsed Meta

pub record ItemFn : Type 0 where
  pub name : String
  pub attrs : List Attribute
  pub is_async : Bool
  pub is_unsafe : Bool
  pub generics : ℕ
  pub is_variadic : Bool
  pub inputs : List FnArg
  pub output : Option RustType
  pub block : Block

pub data Item : Type 0 where
  function : ItemFn → Item
  other : Item
