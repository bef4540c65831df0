-- ===== src/TypeName/Derive.antt =====
-- What the generated expression gives.
use rpi4_usb_io_breaker.Base.{
  false, none, some, List, [], ◌∷◌, ◌++◌, arith, ◌≡◌, ◌≢◌, refl, ◌⊎◌, inl, inr,
}
use rpi4_usb_io_breaker.Core.Error.{Str, ok}
use rpi4_usb_io_breaker.TypeName.{
  GenericParam, lifetime, type_param, const_param, Token, literal, plus, type_params, intersperse,
  derive, operand, NamedType, named, Arguments, nil, type_arg, const_arg, lifetime_arg,
  typename_str, argument_names, tail_names,
}

module _ (types : Str → NamedType) (consts lifetimes : Str → Str) where
  -- the arguments that the parameters stand for
  abbrev pub arguments : List GenericParam → Arguments
  arguments [] = nil
  arguments (lifetime l ∷ params) = lifetime_arg (lifetimes l) (arguments params)
  arguments (type_param t ∷ params) = type_arg (types t) (arguments params)
  arguments (const_param c ∷ params) = const_arg (consts c) (arguments params)

  abbrev names : Str → Str
  names t = typename_str (types t)

  -- the names of the parameters that are types, once one has been written, and from the start
  abbrev tail_of : List Str → Str
  tail_of [] = b'>' ∷ []
  tail_of (t ∷ ts) = b',' ∷ (names t ++ tail_of ts)

  abbrev names_of : List Str → Str
  names_of [] = []
  names_of (t ∷ ts) = b'<' ∷ (names t ++ tail_of ts)

  tail_names-arguments :
      (params : List GenericParam) → tail_names (arguments params) ≡ tail_of (type_params params)
  unfolding tail_names type_params
  tail_names-arguments [] = refl
  tail_names-arguments (lifetime l ∷ params) = tail_names-arguments params
  tail_names-arguments (type_param t ∷ params) = rw (tail_names-arguments params) refl
  tail_names-arguments (const_param c ∷ params) = tail_names-arguments params

  argument_names-arguments :
      (params : List GenericParam)
      → argument_names (arguments params) ≡ names_of (type_params params)
  unfolding argument_names type_params
  argument_names-arguments [] = refl
  argument_names-arguments (lifetime l ∷ params) = argument_names-arguments params
  argument_names-arguments (type_param t ∷ params) = rw (tail_names-arguments params) refl
  argument_names-arguments (const_param c ∷ params) = argument_names-arguments params

  abbrev closed : List Token
  closed = plus ∷ literal (b'>' ∷ []) ∷ []

  intersperse_lem :
      (t : Str) (ts : List Str)
      → operand names (intersperse (t ∷ ts) ++ closed) ≡ some (names t ++ tail_of ts)
  unfolding intersperse operand
  intersperse_lem t [] = refl
  intersperse_lem t (u ∷ ts) = rw (intersperse_lem u ts) refl

  abbrev tokens_of : Str → List Str → List Token
  tokens_of ident ts =
      literal ident ∷ plus ∷ literal (b'<' ∷ []) ∷ plus ∷ (intersperse ts ++ closed)

  -- what the generated expression is, by the parameters
  params_lem :
      (ident : Str) (p : GenericParam) (params : List GenericParam) (ts : List Str)
      → type_params (p ∷ params) ≡ ts
      → (tokens : List Token) × (derive ident (p ∷ params) false ≡ ok tokens)
        × (operand names tokens
            ≡ (elim ts [ [] ↦ none | t ∷ us ↦ some (ident ++ names_of (t ∷ us)) ]))
  unfolding derive operand
  params_lem ident p params [] e = (tokens_of ident [], rw (derive, e) refl, refl)
  params_lem ident p params (t ∷ us) e =
      (tokens_of ident (t ∷ us), rw (derive, e) refl, rw (intersperse_lem t us) refl)

  -- the name of the type, by the parameters that are types
  typename_str-arguments :
      (path : List Str) (ident : Str) (params : List GenericParam) (ts : List Str)
      → type_params params ≡ ts
      → typename_str (named path ident (arguments params)) ≡ ident ++ names_of ts
  unfolding typename_str
  typename_str-arguments path ident params ts e = rw (argument_names-arguments params, e) refl

  -- `derive` on a type without a where clause: without parameters, or with a type among them, the generated expression is
  -- the name of the type at its arguments; with parameters of which none is a type, it is no expression.
  pub operand-derive :
      (path : List Str) (ident : Str) (params : List GenericParam)
      → (tokens : List Token) × (derive ident params false ≡ ok tokens)
        × (((operand names tokens ≡ some (typename_str (named path ident (arguments params))))
              × ((params ≡ []) ⊎ (type_params params ≢ [])))
            ⊎ ((operand names tokens ≡ none) × (params ≢ []) × (type_params params ≡ [])))
  operand-derive path ident [] =
      unfold derive operand typename_str in (literal ident ∷ [], refl, inl (refl, inl refl))
  operand-derive path ident (p ∷ params) = among (type_params (p ∷ params)) refl
    where
      among :
          (ts : List Str)
          → type_params (p ∷ params) ≡ ts
          → (tokens : List Token) × (derive ident (p ∷ params) false ≡ ok tokens)
            × (((operand names tokens
                    ≡ some (typename_str (named path ident (arguments (p ∷ params)))))
                  × ((p ∷ params ≡ []) ⊎ (type_params (p ∷ params) ≢ [])))
                ⊎ ((operand names tokens ≡ none)
                    × (p ∷ params ≢ [])
                    × (type_params (p ∷ params) ≡ [])))
      among [] e =
          let (tokens, made, result) = params_lem ident p params [] e in
          (tokens, made, inr (result, ground arith, e))
      among (t ∷ us) e =
          let (tokens, made, result) = params_lem ident p params (t ∷ us) e in
          let name = typename_str-arguments path ident (p ∷ params) (t ∷ us) e in
          (tokens, made, inl (rw name result, inr (rw e (ground arith))))
