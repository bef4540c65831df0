-- ===== src/Core/Data.antt =====
-- `Data = Vec<u8>` of storage/core/src/lib.rs, and `starts_with` on byte slices.
use rpi4_usb_io_breaker.Base.{
  ℕ, Bool, true, false, List, [], ◌∷◌, arith, ◌==◌, if◌then◌else◌, ◌≡◌, ◌≢◌, refl,
}
use Prim.Native.Nat.Ordering.{lt}
use rpi4_usb_io_breaker.Base.Ord.{lex}

-- Keys and values. A byte is a number; no operation of the storage looks at its size.
abbrev pub Data : Type 0
Data = List ℕ

-- `[u8]::starts_with`
unfoldable pub starts_with : Data → Data → Bool
starts_with k [] = true
starts_with [] (p ∷ ps) = false
starts_with (a ∷ k) (p ∷ ps) = if a == p then starts_with k ps else false

-- A key below the prefix does not start with it.
pub starts_with-below : (k p : Data) → lex k p ≡ lt → starts_with k p ≡ false
unfolding starts_with
starts_with-below [] [] h = ground arith
starts_with-below (a ∷ k) [] h = ground arith
starts_with-below [] (b ∷ p) h = refl
starts_with-below (a ∷ k) (b ∷ p) h = ground (arith, starts_with-below k p)

-- The keys with a prefix are an interval: from the prefix on, once a key does not start with it, no
-- later key does.
pub starts_with-above :
    (j k p : Data) → lex j p ≢ lt → lex j k ≡ lt → starts_with j p ≡ false → starts_with k p ≡ false
unfolding starts_with
starts_with-above j k [] n h e = ground arith
starts_with-above [] k (b ∷ p) n h e = absurd (n refl)
starts_with-above (a ∷ j) [] (b ∷ p) n h e = refl
starts_with-above (a ∷ j) (c ∷ k) (b ∷ p) n h e = ground (arith, starts_with-above j k p)
