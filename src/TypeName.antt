-- ===== src/TypeName.antt =====
-- utils/typename and utils/typename-derive: the names of types. The macro generates an expression, whose tokens are
-- listed as the macro quotes them; the rest of the implementation that it generates only repeats the parameters.
pub mod Derive
pub mod Unique
use mathlib.Core.Option
use rpi4_usb_io_breaker.Base.{
  Bool, true, false, if◌then◌else◌, Option, none, some, List, [], ◌∷◌, ◌++◌,
}
use rpi4_usb_io_breaker.Core.Error.{Str, Result, ok, panicked}

-- `syn::GenericParam`, by the identifier
pub data GenericParam : Type 0 where
  lifetime type_param const_param : Str → GenericParam

-- a text literal, `+`, and `T::typename_str().as_ref()` for a parameter `T`
pub data Token : Type 0 where
  literal : Str → Token
  plus : Token
  name_of : Str → Token

-- `generics.type_params()`
pub type_params : List GenericParam → List Str
type_params [] = []
type_params (lifetime ident ∷ params) = type_params params
type_params (type_param ident ∷ params) = ident ∷ type_params params
type_params (const_param ident ∷ params) = type_params params

-- `Itertools::intersperse(gen_params, quote! {+ "," +})`
pub intersperse : List Str → List Token
intersperse [] = []
intersperse (t ∷ []) = name_of t ∷ []
intersperse (t ∷ u ∷ ts) = name_of t ∷ plus ∷ literal (b',' ∷ []) ∷ plus ∷ intersperse (u ∷ ts)

-- the expression of `typename_str` that `derive` generates; with parameters it asserts that there is no where clause
pub derive : Str → List GenericParam → Bool → Result (List Token)
unfolding type_params intersperse
derive ident [] has_where = ok (literal ident ∷ [])
derive ident (p ∷ params) has_where =
    if has_where
    then panicked
    else ok (
        literal ident
        ∷ plus
        ∷ literal (b'<' ∷ [])
        ∷ plus
        ∷ (intersperse (type_params (p ∷ params)) ++ plus ∷ literal (b'>' ∷ []) ∷ []))

-- What the compiler makes of the tokens: a sum of texts, and `none` where they are no sum. `names` gives the name of the
-- type that a parameter stands for.
module _ (names : Str → Str) where
  mutual
    -- after a `+`, or at the start
    pub operand : List Token → Option Str
    operand [] = none
    operand (literal s ∷ ts) = Option.map (λ rest. s ++ rest) (more ts)
    operand (plus ∷ ts) = none
    operand (name_of t ∷ ts) = Option.map (λ rest. names t ++ rest) (more ts)

    pub more : List Token → Option Str
    more [] = some []
    more (literal s ∷ ts) = none
    more (plus ∷ ts) = operand ts
    more (name_of t ∷ ts) = none

-- A type that derives `TypeName`: its path, its identifier, and its arguments in the order of the parameters, constants
-- and lifetimes by their texts.
mutual
  pub data NamedType : Type 0 where
    named : List Str → Str → Arguments → NamedType

  pub data Arguments : Type 0 where
    nil : Arguments
    type_arg : NamedType → Arguments → Arguments
    const_arg : Str → Arguments → Arguments
    lifetime_arg : Str → Arguments → Arguments

-- `typename_str` of such a type: the identifier, and the names of the type arguments; the others are skipped
unfoldable mutual
  pub typename_str : NamedType → Str
  typename_str (named path ident ts) = ident ++ argument_names ts

  pub argument_names : Arguments → Str
  argument_names nil = []
  argument_names (type_arg t ts) = b'<' ∷ (typename_str t ++ tail_names ts)
  argument_names (const_arg c ts) = argument_names ts
  argument_names (lifetime_arg l ts) = argument_names ts

  pub tail_names : Arguments → Str
  tail_names nil = b'>' ∷ []
  tail_names (type_arg t ts) = b',' ∷ (typename_str t ++ tail_names ts)
  tail_names (const_arg c ts) = tail_names ts
  tail_names (lifetime_arg l ts) = tail_names ts
