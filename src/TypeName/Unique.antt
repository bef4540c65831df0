-- ===== src/TypeName/Unique.antt =====
-- The derived names tell types apart.
use rpi4_usb_io_breaker.Base.{
  [], ◌∷◌, ◌++◌, All, arith, ◌≡◌, ◌≢◌, refl, sym, ◌∙◌, ap, ◌⊎◌, inl, inr,
}
use mathlib.Core.List.{append_assoc, append-nil}
use rpi4_usb_io_breaker.Core.Error.{Str}
use rpi4_usb_io_breaker.TypeName.{
  NamedType, named, Arguments, nil, type_arg, const_arg, lifetime_arg, typename_str, argument_names,
  tail_names,
}

-- What a name shows of a type: the identifier and the type arguments in their order, without the path, the lifetimes and
-- the constants.
mutual
  pub data Short : Type 0 where
    short : Str → Shorts → Short

  pub data Shorts : Type 0 where
    no_more : Shorts
    shown : Short → Shorts → Shorts

abbrev mutual
  pub shorten : NamedType → Short
  shorten (named path ident ts) = short ident (shorten_all ts)

  pub shorten_all : Arguments → Shorts
  shorten_all nil = no_more
  shorten_all (type_arg t ts) = shown (shorten t) (shorten_all ts)
  shorten_all (const_arg c ts) = shorten_all ts
  shorten_all (lifetime_arg l ts) = shorten_all ts

mutual
  short_str : Short → Str
  short_str (short ident no_more) = ident
  short_str (short ident (shown t ts)) = ident ++ (b'<' ∷ (short_str t ++ short_tail ts))

  short_tail : Shorts → Str
  short_tail no_more = b'>' ∷ []
  short_tail (shown t ts) = b',' ∷ (short_str t ++ short_tail ts)

-- an identifier has none of the characters that the names of types are put together with
abbrev pub IsPlain : Str → Type 0
IsPlain s = All (λ c. (c ≢ b'<') × (c ≢ b'>') × (c ≢ b',')) s

abbrev mutual
  pub AllPlain : Short → Type 0
  AllPlain (short ident ts) = IsPlain ident × ShortsPlain ts

  pub ShortsPlain : Shorts → Type 0
  ShortsPlain no_more = Unit
  ShortsPlain (shown t ts) = AllPlain t × ShortsPlain ts

-- the text after a name does not go on with it, nor with arguments
abbrev Ends : Str → Type 0
Ends [] = Unit
Ends (c ∷ s) = (c ≡ b'>') ⊎ (c ≡ b',')

abbrev Stops : Str → Type 0
Stops [] = Unit
Stops (c ∷ s) = (c ≡ b'<') ⊎ (c ≡ b'>') ⊎ (c ≡ b',')

ident_inj :
    (a b x y : Str)
    → IsPlain a
    → IsPlain b
    → Stops x
    → Stops y
    → a ++ x ≡ b ++ y
    → (a ≡ b) × (x ≡ y)
ident_inj [] [] x y p q h k e = (refl, e)
ident_inj [] (c ∷ b) [] y p q h k e = ground arith
ident_inj [] (c ∷ b) (d ∷ x) y p q h k e = ground arith
ident_inj (c ∷ a) [] x [] p q h k e = ground arith
ident_inj (c ∷ a) [] x (d ∷ y) p q h k e = ground arith
ident_inj (c ∷ a) (d ∷ b) x y p q h k e =
    let rest : (a ≡ b) × (x ≡ y) = ident_inj a b x y p.1 q.1 h k (ground arith) in ground arith

Ends-Stops : (x : Str) → Ends x → Stops x
Ends-Stops [] h = tt
Ends-Stops (c ∷ x) h = ground arith

ended : (x after : Str) → Ends x → x ≡ b'<' ∷ after → ⊥
ended [] after h e = ground arith
ended (c ∷ x) after h e = ground arith

tail_eq : (x y : Str) → b',' ∷ x ≡ b',' ∷ y → x ≡ y
tail_eq x y e = ground arith

opened :
    (a : Str) (t : Short) (ts : Shorts) (x : Str)
    → short_str (short a (shown t ts)) ++ x ≡ a ++ b'<' ∷ (short_str t ++ (short_tail ts ++ x))
unfolding short_str
opened a t ts x =
    append_assoc a (b'<' ∷ (short_str t ++ short_tail ts)) x
    ∙ ap (λ r. a ++ b'<' ∷ r) (append_assoc (short_str t) (short_tail ts) x)

short_tail-Ends : (ts : Shorts) (r : Str) → Ends (short_tail ts ++ r)
unfolding short_tail
short_tail-Ends no_more r = inl refl
short_tail-Ends (shown t ts) r = inr refl

mutual
  unfolding short_str short_tail

  name_inj :
      (s t : Short) (x y : Str)
      → AllPlain s
      → AllPlain t
      → Ends x
      → Ends y
      → short_str s ++ x ≡ short_str t ++ y
      → (s ≡ t) × (x ≡ y)
  name_inj (short a no_more) (short b no_more) x y p q h k e =
      let (same, rest) = ident_inj a b x y p.0 q.0 (Ends-Stops x h) (Ends-Stops y k) e in
      (ap (λ c. short c no_more) same, rest)
  name_inj (short a no_more) (short b (shown u us)) x y p q h k e =
      let after = (short_str u ++ short_tail us) ++ y in
      let (same, rest) =
        ident_inj a b x (b'<' ∷ after) p.0 q.0 (Ends-Stops x h) (inl refl)
          (e ∙ append_assoc b (b'<' ∷ (short_str u ++ short_tail us)) y) in
      absurd (ended x after h rest)
  name_inj (short a (shown t ts)) (short b no_more) x y p q h k e =
      let after = (short_str t ++ short_tail ts) ++ x in
      let (same, rest) =
        ident_inj b a y (b'<' ∷ after) q.0 p.0 (Ends-Stops y k) (inl refl)
          (sym e ∙ append_assoc a (b'<' ∷ (short_str t ++ short_tail ts)) x) in
      absurd (ended y after k rest)
  name_inj (short a (shown t ts)) (short b (shown u us)) x y p q h k e =
      let left = short_str t ++ (short_tail ts ++ x) in
      let right = short_str u ++ (short_tail us ++ y) in
      let (same, rest) =
        ident_inj a b (b'<' ∷ left) (b'<' ∷ right) p.0 q.0 (inl refl) (inl refl)
          (sym (opened a t ts x) ∙ e ∙ opened b u us y) in
      let args : left ≡ right = ground arith in
      let (first, others) =
        name_inj t u (short_tail ts ++ x) (short_tail us ++ y) p.1.0 q.1.0 (short_tail-Ends ts x)
          (short_tail-Ends us y) args in
      let (more_same, after) = tails_inj ts us x y p.1.1 q.1.1 h k others in
      (rw (same, first, more_same) refl, after)

  tails_inj :
      (ts us : Shorts) (x y : Str)
      → ShortsPlain ts
      → ShortsPlain us
      → Ends x
      → Ends y
      → short_tail ts ++ x ≡ short_tail us ++ y
      → (ts ≡ us) × (x ≡ y)
  tails_inj no_more no_more x y p q h k e = (refl, ground arith)
  tails_inj no_more (shown u us) x y p q h k e = ground arith
  tails_inj (shown t ts) no_more x y p q h k e = ground arith
  tails_inj (shown t ts) (shown u us) x y p q h k e =
      let args : short_str t ++ (short_tail ts ++ x) ≡ short_str u ++ (short_tail us ++ y) =
        sym (append_assoc (short_str t) (short_tail ts) x)
        ∙ tail_eq _ _ e
        ∙ append_assoc (short_str u) (short_tail us) y in
      let (first, others) =
        name_inj t u (short_tail ts ++ x) (short_tail us ++ y) p.0 q.0 (short_tail-Ends ts x)
          (short_tail-Ends us y) args in
      let (rest, after) = tails_inj ts us x y p.1 q.1 h k others in (rw (first, rest) refl, after)

abbrev shorts_str : Shorts → Str
shorts_str no_more = []
shorts_str (shown t ts) = b'<' ∷ (short_str t ++ short_tail ts)

short_str_lem : (ident : Str) (ts : Shorts) → ident ++ shorts_str ts ≡ short_str (short ident ts)
unfolding short_str
short_str_lem ident no_more = append-nil ident
short_str_lem ident (shown t ts) = refl

-- the name of a type is that of what it shows
mutual
  unfolding typename_str short_str

  short_str-shorten : (t : NamedType) → typename_str t ≡ short_str (shorten t)
  short_str-shorten (named path ident ts) =
      rw (shorts_str-shorten ts) (short_str_lem ident (shorten_all ts))

  shorts_str-shorten : (ts : Arguments) → argument_names ts ≡ shorts_str (shorten_all ts)
  shorts_str-shorten nil = refl
  shorts_str-shorten (type_arg t ts) = rw (short_str-shorten t, short_tail-shorten ts) refl
  shorts_str-shorten (const_arg c ts) = shorts_str-shorten ts
  shorts_str-shorten (lifetime_arg l ts) = shorts_str-shorten ts

  short_tail-shorten : (ts : Arguments) → tail_names ts ≡ short_tail (shorten_all ts)
  short_tail-shorten nil = refl
  short_tail-shorten (type_arg t ts) = rw (short_str-shorten t, short_tail-shorten ts) refl
  short_tail-shorten (const_arg c ts) = short_tail-shorten ts
  short_tail-shorten (lifetime_arg l ts) = short_tail-shorten ts

-- Two types have the same derived name exactly when they have the same identifiers and type arguments, in their order,
-- where the identifiers have none of the characters that names are put together with; their paths, lifetimes and constants
-- may differ.
pub typename_str-eq_iff :
    (s t : NamedType)
    → AllPlain (shorten s)
    → AllPlain (shorten t)
    → (typename_str s ≡ typename_str t → shorten s ≡ shorten t)
      × (shorten s ≡ shorten t → typename_str s ≡ typename_str t)
typename_str-eq_iff s t p q = (
  (λ e.
      let same : short_str (shorten s) ≡ short_str (shorten t) =
        sym (short_str-shorten s) ∙ e ∙ short_str-shorten t in
      (name_inj (shorten s) (shorten t) [] [] p q tt tt
        (append-nil (short_str (shorten s)) ∙ same ∙ sym (append-nil (short_str (shorten t))))).0),
  (λ e. short_str-shorten s ∙ ap short_str e ∙ sym (short_str-shorten t)),
)
