-- ===== src/TestUtils/Text.antt =====
-- The random texts of test-utils/src/lib.rs.
use rpi4_usb_io_breaker.Base.{
  ℕ, zero, suc, ◌+◌, ◌%◌, ◌≤◌, ◌<◌, Bool, false, leb, ◌==◌, [], ◌∷◌, keep, not, length, arith, ◌≡◌,
  refl, ap, if◌then◌else◌, inl, inr, Bool-cases,
}
use rpi4_usb_io_breaker.Core.Error.{Str, Result, ok, panicked}
use rpi4_usb_io_breaker.TestUtils.Random.{Rng, RngLaws, is_ascii_alphanumeric}

module _ (rng : Rng) where
  -- `for _ in 0..1000`, with the rounds that are left
  unfoldable pub sample_byte : ℕ → rng.State → Result ℕ × rng.State
  sample_byte zero s = (panicked, s)
  sample_byte (suc rounds) s =
      let (random_byte, s') = rng.gen 8 s in
      let again = sample_byte rounds s' in
      if is_ascii_alphanumeric random_byte then again else (ok random_byte, s')

  unfoldable pub get_random_non_ascii_alphanumeric_byte : rng.State → Result ℕ × rng.State
  unfolding sample_byte
  get_random_non_ascii_alphanumeric_byte s = sample_byte 1000 s

  -- the range of lengths is `low..high`
  pub random_ascii_alphanumeric_string : ℕ → ℕ → rng.State → Str × rng.State
  random_ascii_alphanumeric_string low high s =
      if leb high low
      then ([], s)
      else (let (len, s') = rng.gen_range low high s in rng.sample_string len s')

  -- `!is_ascii_alphanumeric()`
  abbrev is_other : ℕ → Bool
  is_other a = not (is_ascii_alphanumeric a)

  -- the characters from the index `idx` on
  pub ticker : ℕ → ℕ → ℕ → ℕ → rng.State → Str × rng.State
  ticker zero idx replaced c s = ([], s)
  ticker (suc left) idx replaced c s =
      let (a, s') = (if idx == replaced then (c, s) else rng.sample s) in
      let (rest, s2) = ticker left (suc idx) replaced c s' in (a ∷ rest, s2)

  -- `1 + rng.gen::<usize>() % max_len`, on 64 bits; the remainder by zero panics, and so does the assertion
  pub gen_text_with_non_ascii : ℕ → ℕ → rng.State → Result Str × rng.State
  unfolding ticker
  gen_text_with_non_ascii c max_len s =
      if is_ascii_alphanumeric c
      then (panicked, s)
      else if max_len == 0
      then (panicked, s)
      else (let (n, s') = rng.gen 64 s in
          let text_len = 1 + n % max_len in
          let (r, s2) = rng.gen 64 s' in
          let (text, s3) = ticker text_len 0 (r % text_len) c s2 in (ok text, s3))

  module _ (laws : RngLaws rng) where
    sample_byte-other :
        (rounds : ℕ) (s : rng.State) (c : ℕ)
        → (sample_byte rounds s).0 ≡ ok c
        → is_ascii_alphanumeric c ≡ false
    unfolding sample_byte
    sample_byte-other zero s c e = ground arith
    sample_byte-other (suc rounds) s c e =
        elim (Bool-cases (is_ascii_alphanumeric (rng.gen 8 s).0)) [
          | inl y ↦ sample_byte-other rounds (rng.gen 8 s).1 c (rw (sample_byte, y) at e)
          | inr n ↦ let same : ok (rng.gen 8 s).0 ≡ ok c = rw (sample_byte, n) at e in ground arith
        ]

    -- past the place of the other character
    ticker_after :
        (left idx replaced c : ℕ) (s : rng.State)
        → replaced < idx
        → keep is_other (ticker left idx replaced c s).0 ≡ []
    unfolding ticker
    ticker_after zero idx replaced c s h = refl
    ticker_after (suc left) idx replaced c s h =
        let differs : (idx == replaced) ≡ false = ground arith in
        rw (differs, laws.sample_lem s)
          (ticker_after left (suc idx) replaced c (rng.sample s).1 (omega arith))

    ticker_at :
        (left idx replaced c : ℕ) (s : rng.State)
        → is_ascii_alphanumeric c ≡ false
        → idx ≤ replaced
        → replaced < idx + left
        → keep is_other (ticker left idx replaced c s).0 ≡ c ∷ []
    unfolding ticker
    ticker_at zero idx replaced c s other h h' = absurd (omega arith)
    ticker_at (suc left) idx replaced c s other h h' = elim (Bool-cases (idx == replaced)) [
      | inl y ↦
          rw (y, other) (ap (λ l. c ∷ l) (ticker_after left (suc idx) replaced c s (ground arith)))
      | inr n ↦
          rw (n, laws.sample_lem s)
            (ticker_at left (suc idx) replaced c (rng.sample s).1 other (ground arith)
              (omega arith))
    ]

    length-ticker :
        (left idx replaced c : ℕ) (s : rng.State) → length (ticker left idx replaced c s).0 ≡ left
    unfolding ticker
    length-ticker zero idx replaced c s = refl
    length-ticker (suc left) idx replaced c s = ap suc (length-ticker left (suc idx) replaced c _)

    -- For a bound of the length that is not 0, and a character that `get_random_non_ascii_alphanumeric_byte` has returned:
    -- `gen_text_with_non_ascii` returns a text that is not empty and not longer than the bound, and the only character in
    -- it that is not alphanumeric is that one.
    pub gen_text-random_byte :
        (max_len c : ℕ) (s s' : rng.State)
        → 0 < max_len
        → (get_random_non_ascii_alphanumeric_byte s).0 ≡ ok c
        → (text : Str) × ((gen_text_with_non_ascii c max_len s').0 ≡ ok text)
          × (1 ≤ length text)
          × (length text ≤ max_len)
          × (keep (λ a. not (is_ascii_alphanumeric a)) text ≡ c ∷ [])
    unfolding gen_text_with_non_ascii get_random_non_ascii_alphanumeric_byte
    gen_text-random_byte max_len c s s' h e =
        let other = sample_byte-other 1000 s c e in
        let some_len : (max_len == 0) ≡ false = ground arith in
        let text_len = 1 + (rng.gen 64 s').0 % max_len in
        let r = rng.gen 64 (rng.gen 64 s').1 in
        let size = length-ticker text_len 0 (r.0 % text_len) c r.1 in
        let bounded : text_len ≤ max_len = grind arith in
        let inside : r.0 % text_len < text_len = grind arith in
        (
          (ticker text_len 0 (r.0 % text_len) c r.1).0,
          rw (gen_text_with_non_ascii, other, some_len) refl,
          omega (arith, size),
          omega (arith, size, bounded),
          ticker_at text_len 0 (r.0 % text_len) c r.1 other (omega arith) (omega (arith, inside)),
        )
