-- ===== src/Examples/Names.antt =====
-- The names of types at concrete types.
use rpi4_usb_io_breaker.Base.{List, [], ◌∷◌, none, some, false, ◌≡◌, ◌≢◌, arith, ◌⊎◌}
use rpi4_usb_io_breaker.Core.Error.{ok}
use rpi4_usb_io_breaker.TypeName.{
  GenericParam, type_param, lifetime, Token, derive, type_params, operand, NamedType, named, nil,
  type_arg, const_arg, typename_str,
}
use rpi4_usb_io_breaker.TypeName.Derive.{arguments, operand-derive}
use rpi4_usb_io_breaker.TypeName.Unique.{shorten, typename_str-eq_iff}

-- `P`
abbrev plain : NamedType
plain = named [] (b'P' ∷ []) nil

-- `<'a, T, U>`
abbrev params : List GenericParam
params = lifetime (b'a' ∷ []) ∷ type_param (b'T' ∷ []) ∷ type_param (b'U' ∷ []) ∷ []

operand-derive_example :
    (tokens : List Token) × (derive (b'S' ∷ []) params false ≡ ok tokens)
    × (((operand (λ t. typename_str plain) tokens
            ≡ some (
                typename_str
                  (named [] (b'S' ∷ []) (arguments (λ t. plain) (λ c. c) (λ l. l) params))))
          × ((params ≡ []) ⊎ (type_params params ≢ [])))
        ⊎ ((operand (λ t. typename_str plain) tokens ≡ none)
            × (params ≢ [])
            × (type_params params ≡ [])))
operand-derive_example = operand-derive (λ t. plain) (λ c. c) (λ l. l) [] (b'S' ∷ []) params

-- `a::S<P, 1>` and `b::S<P, 2>`
abbrev first_type : NamedType
first_type = named ((b'a' ∷ []) ∷ []) (b'S' ∷ []) (type_arg plain (const_arg (b'1' ∷ []) nil))

abbrev second_type : NamedType
second_type = named ((b'b' ∷ []) ∷ []) (b'S' ∷ []) (type_arg plain (const_arg (b'2' ∷ []) nil))

typename_str-eq_iff_example :
    (typename_str first_type ≡ typename_str second_type → shorten first_type ≡ shorten second_type)
    × (shorten first_type ≡ shorten second_type
        → typename_str first_type ≡ typename_str second_type)
typename_str-eq_iff_example = typename_str-eq_iff first_type second_type (omega arith) (omega arith)
