-- ===== src/TestUtils/Dir/Names.antt =====
-- The names that test_dir.rs makes: they are names of the file system, and the number in them can be read off.
use native.Mathlib.Nat.{pow-succ'}
use rpi4_usb_io_breaker.Base.{
  ℕ, zero, suc, ◌+◌, ◌*◌, ◌/◌, ◌%◌, ◌^◌, ◌≤◌, ◌<◌, [], ◌∷◌, ◌++◌, map, All, All-append, length,
  arith, ◌≡◌, ◌≢◌, refl, sym, ◌∙◌, ap,
}
use rpi4_usb_io_breaker.Core.Error.{Str}
use rpi4_usb_io_breaker.TestUtils.Dir.{
  hex_digit, hex_digits, hex8, join, replaced, replaced_char, run_, case_,
}
use rpi4_usb_io_breaker.TestUtils.Dir.Laws.{IsName}

length-append : (xs ys : Str) → length (xs ++ ys) ≡ length xs + length ys
length-append [] ys = omega arith
length-append (x ∷ xs) ys = omega (arith, length-append xs ys)

length-hex_digits : (width n : ℕ) → length (hex_digits width n) ≡ width
unfolding hex_digits
length-hex_digits zero n = refl
length-hex_digits (suc width) n =
    length-append (hex_digits width (n / 16)) (hex_digit (n % 16) ∷ [])
    ∙ omega (arith, length-hex_digits width (n / 16))

append_inj :
    (xs ys us vs : Str) → length xs ≡ length ys → xs ++ us ≡ ys ++ vs → (xs ≡ ys) × (us ≡ vs)
append_inj [] [] us vs h e = (refl, e)
append_inj [] (y ∷ ys) us vs h e = ground arith
append_inj (x ∷ xs) [] us vs h e = ground arith
append_inj (x ∷ xs) (y ∷ ys) us vs h e =
    let rest = append_inj xs ys us vs (omega (arith, h)) (ground arith) in ground arith

div_bound : (width n : ℕ) → n < 16 ^ suc width → n / 16 < 16 ^ width
div_bound width n h =
    let e : 16 ^ suc width ≡ 16 * 16 ^ width = pow-succ' 16 width in omega (arith, e)

hex_digit-inj : (m n : ℕ) → hex_digit m ≡ hex_digit n → m ≡ n
hex_digit-inj m n e = ground arith

hex_digits-inj :
    (width m n : ℕ)
    → m < 16 ^ width
    → n < 16 ^ width
    → hex_digits width m ≡ hex_digits width n
    → m ≡ n
unfolding hex_digits
hex_digits-inj zero m n h h' e = omega arith
hex_digits-inj (suc width) m n h h' e =
    let (high, low) =
      append_inj (hex_digits width (m / 16)) (hex_digits width (n / 16)) (hex_digit (m % 16) ∷ [])
        (hex_digit (n % 16) ∷ [])
        (length-hex_digits width (m / 16) ∙ sym (length-hex_digits width (n / 16))) e in
    let quotients =
      hex_digits-inj width (m / 16) (n / 16) (div_bound width m h) (div_bound width n h') high in
    let remainders = hex_digit-inj (m % 16) (n % 16) (ground arith) in
    omega (arith, quotients, remainders)

pub hex8-inj : (m n : ℕ) → m < 2 ^ 32 → n < 2 ^ 32 → hex8 m ≡ hex8 n → m ≡ n
unfolding hex8
hex8-inj m n h h' e = hex_digits-inj 8 m n h h' e

hex_digit_plain : (n : ℕ) → (hex_digit n ≢ 0) × (hex_digit n ≢ b'/')
hex_digit_plain n = (ground arith, ground arith)

hex_digits-All : (width n : ℕ) → All (λ c. (c ≢ 0) × (c ≢ b'/')) (hex_digits width n)
unfolding hex_digits
hex_digits-All zero n = tt
hex_digits-All (suc width) n =
    All-append (λ c. (c ≢ 0) × (c ≢ b'/')) (hex_digits width (n / 16)) (hex_digit (n % 16) ∷ [])
      (hex_digits-All width (n / 16)) (hex_digit_plain (n % 16), tt)

-- a text of the caller without NUL
abbrev pub IsText : Str → Type 0
IsText name = (length name ≤ 241) × All (λ c. c ≢ 0) name

length-map : (f : ℕ → ℕ) (l : Str) → length (map f l) ≡ length l
length-map f [] = refl
length-map f (x ∷ l) = ap suc (length-map f l)

replaced-All :
    (name : Str) → All (λ c. c ≢ 0) name → All (λ c. (c ≢ 0) × (c ≢ b'/')) (replaced name)
replaced-All [] h = tt
replaced-All (c ∷ name) h = ((ground arith, ground arith), replaced-All name h.1)

abbrev pub run_name : ℕ → Str
run_name n = run_ ++ hex8 n

abbrev pub case_name : ℕ → Str → Str
case_name n name = case_ ++ (hex8 n ++ b'_' ∷ replaced name)

pub run_name-IsName : (n : ℕ) → IsName (run_name n)
unfolding hex8
run_name-IsName n = record {
  short = omega (arith, length-append run_ (hex_digits 8 n), length-hex_digits 8 n);
  plain =
      All-append (λ c. (c ≢ 0) × (c ≢ b'/')) run_ (hex_digits 8 n) (omega arith)
        (hex_digits-All 8 n);
  first = (b'r', _, refl, omega arith);
}

pub case_name-IsName : (n : ℕ) (name : Str) → IsText name → IsName (case_name n name)
unfolding hex8
case_name-IsName n name h = record {
  short = omega (
    arith,
    length-append (hex_digits 8 n) (b'_' ∷ replaced name),
    length-hex_digits 8 n,
    length-map replaced_char name,
    h.0,
  );
  plain =
      All-append (λ c. (c ≢ 0) × (c ≢ b'/')) case_ (hex_digits 8 n ++ b'_' ∷ replaced name)
        (omega arith)
        (All-append (λ c. (c ≢ 0) × (c ≢ b'/')) (hex_digits 8 n) (b'_' ∷ replaced name)
          (hex_digits-All 8 n) ((omega arith, omega arith), replaced-All name h.1));
  first = (b'c', _, refl, omega arith);
}

-- The path of a test directory determines the number in its name.
pub case_name-inj :
    (path : Str) (m n : ℕ) (a b : Str)
    → m < 2 ^ 32
    → n < 2 ^ 32
    → join path (case_name m a) ≡ join path (case_name n b)
    → m ≡ n
unfolding hex8
case_name-inj path m n a b h h' e =
    let (_, after) = append_inj path path (b'/' ∷ case_name m a) (b'/' ∷ case_name n b) refl e in
    let same : hex8 m ++ b'_' ∷ replaced a ≡ hex8 n ++ b'_' ∷ replaced b =
      (append_inj (b'/' ∷ case_) (b'/' ∷ case_) (hex8 m ++ b'_' ∷ replaced a)
        (hex8 n ++ b'_' ∷ replaced b) refl after).1 in
    let (digits, _) =
      append_inj (hex8 m) (hex8 n) (b'_' ∷ replaced a) (b'_' ∷ replaced b)
        (length-hex_digits 8 m ∙ sym (length-hex_digits 8 n)) same in
    hex8-inj m n h h' digits
