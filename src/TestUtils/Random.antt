-- ===== src/TestUtils/Random.antt =====
-- `Rng` of the crate rand, as test-utils/src uses it: what a call returns depends on the generator's state. Its documented
-- behaviour is `RngLaws`; a range that has nothing in it is never asked for.
use rpi4_usb_io_breaker.Base.{ℕ, Bool, true, ◌&&◌, ◌||◌, leb, length, All, ◌≡◌, ◌≤◌, ◌<◌, ◌^◌}
use rpi4_usb_io_breaker.Core.Error.{Str}

pub record Rng : Type 1 where
  pub State : Type 0
  -- `gen_range(low..high)`
  pub gen_range : ℕ → ℕ → State → ℕ × State
  -- `gen`, for an unsigned integer of so many bits
  pub gen : ℕ → State → ℕ × State
  -- `sample(Alphanumeric)`
  pub sample : State → ℕ × State
  -- `Alphanumeric.sample_string`
  pub sample_string : ℕ → State → Str × State

-- `u8::is_ascii_alphanumeric`
unfoldable pub is_ascii_alphanumeric : ℕ → Bool
is_ascii_alphanumeric c =
    (leb 48 c && leb c 57) || ((leb 65 c && leb c 90) || (leb 97 c && leb c 122))

pub record RngLaws (rng : Rng) : Type 0 where
  pub gen_range_lem :
      (low high : ℕ) (s : rng.State)
      → low < high
      → (low ≤ (rng.gen_range low high s).0) × ((rng.gen_range low high s).0 < high)
  pub gen_lem : (bits : ℕ) (s : rng.State) → (rng.gen bits s).0 < 2 ^ bits
  pub sample_lem : (s : rng.State) → is_ascii_alphanumeric (rng.sample s).0 ≡ true
  pub sample_string_lem :
      (n : ℕ) (s : rng.State)
      → (length (rng.sample_string n s).0 ≡ n)
        × All (λ c. is_ascii_alphanumeric c ≡ true) (rng.sample_string n s).0
