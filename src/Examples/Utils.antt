-- ===== src/Examples/Utils.antt =====
-- A generator of numbers that counts, a file system that is a list of paths, and the theorems about test-utils over them.
use rpi4_usb_io_breaker.Base.{
  ℕ, zero, suc, ◌+◌, ◌-◌, ◌%◌, ◌^◌, ◌≤◌, ◌<◌, Bool, true, false, ◌||◌, some, List, [], ◌∷◌, ◌++◌,
  map, All, All-replicate, length, length-replicate, replicate, get_elem?, total, arith, ◌≡◌, ◌≢◌,
  refl, ◌⊎◌, inl, inr, if◌then◌else◌, Bool-cases,
}
use mathlib.Core.List.{Perm}
use native.Mathlib.Nat.{mod-lt, one-le-pow}
use rpi4_usb_io_breaker.Core.Data.{starts_with}
use rpi4_usb_io_breaker.Core.Error.{Str, ok, panicked, already_exists}
use rpi4_usb_io_breaker.Lmdb.Errors.{IoError}
use rpi4_usb_io_breaker.TestUtils.Random.{Rng, RngLaws, is_ascii_alphanumeric}
use rpi4_usb_io_breaker.TestUtils.Split.{split_value}
use rpi4_usb_io_breaker.TestUtils.Split.Sums.{sum-split_value}
use rpi4_usb_io_breaker.TestUtils.Shuffle.{shuffle_until_different}
use rpi4_usb_io_breaker.TestUtils.Shuffle.Different.{Distinct, shuffle_until_different-ne}
use rpi4_usb_io_breaker.TestUtils.Dir.{IoResult, done, failed, FileSystem, TestRoot, join, create}
use rpi4_usb_io_breaker.TestUtils.Dir.Laws.{IsName, FileSystemLaws}
use rpi4_usb_io_breaker.TestUtils.Dir.Names.{run_name}
use rpi4_usb_io_breaker.TestUtils.Dir.Fresh.{fresh_test_dirs}
use rpi4_usb_io_breaker.TestUtils.Dir.Create.{create-fresh_test_dirs}

counting : Rng
counting = record {
  State = ℕ;
  gen_range = λ low high s. (low + s % (high - low), suc s);
  gen = λ bits s. (s % 2 ^ bits, suc s);
  sample = λ s. (97, suc s);
  sample_string = λ n s. (replicate n 97, suc s);
}

in_range :
    (low high s : ℕ) → low < high → (low ≤ low + s % (high - low)) × (low + s % (high - low) < high)
in_range low high s h =
    let small : s % (high - low) < high - low = grind arith in (omega arith, omega (arith, small))

in_bits : (bits s : ℕ) → s % 2 ^ bits < 2 ^ bits
in_bits bits s = mod-lt s (grind (arith, one-le-pow bits 2))

counting-laws : RngLaws counting
unfolding counting
counting-laws = record {
  gen_range_lem = in_range;
  gen_lem = in_bits;
  sample_lem = λ s. unfold is_ascii_alphanumeric in refl;
  sample_string_lem = λ n s. (
    length-replicate n 97,
    All-replicate (λ c. is_ascii_alphanumeric c ≡ true) n 97 (unfold is_ascii_alphanumeric in refl),
  );
}

start : ℕ → counting.State
unfolding counting
start n = n

sum-split_value_example :
    (parts : List ℕ) × ((split_value counting true 100 (start 5)).0 ≡ ok parts)
    × (total (λ x. x) parts ≡ 100)
    × (1 ≤ length parts)
    × (length parts ≤ 11)
    × ((1 < 100) ⊎ (parts ≡ 100 ∷ []))
sum-split_value_example = sum-split_value counting counting-laws true 100 (start 5)

abbrev three : List ℕ
three = 10 ∷ 20 ∷ 30 ∷ []

three-Distinct : Distinct three
three-Distinct i (suc (suc (suc j))) h h' e = absurd (omega arith)
three-Distinct i zero h h' e = absurd (omega arith)
three-Distinct zero (suc zero) h h' e = ground arith
three-Distinct zero (suc (suc zero)) h h' e = ground arith
three-Distinct (suc zero) (suc zero) h h' e = absurd (omega arith)
three-Distinct (suc zero) (suc (suc zero)) h h' e = ground arith
three-Distinct (suc (suc i)) (suc zero) h h' e = absurd (omega arith)
three-Distinct (suc (suc i)) (suc (suc zero)) h h' e = absurd (omega arith)

shuffle_until_different-ne_example :
    ((ys : List ℕ) × ((shuffle_until_different counting three (start 0)).0 ≡ ok ys)
      × Perm ys three
      × (ys ≢ three))
    ⊎ (((shuffle_until_different counting three (start 0)).0 ≡ panicked)
        × ((length three < 2)
            ⊎ ((counting.gen_range 0 (length three) (start 0)).0 + 1 ≡ length three)))
shuffle_until_different-ne_example =
    shuffle_until_different-ne counting counting-laws three (start 0) three-Distinct

-- a path is there if it was made, or something below it
abbrev under : Str → Str
under q = q ++ b'/' ∷ []

is_there : Str → List Str → Bool
is_there q [] = false
is_there q (p ∷ s) = starts_with (under p) (under q) || is_there q s

starts_with-cut : (k p q : Str) → starts_with k (p ++ q) ≡ true → starts_with k p ≡ true
unfolding starts_with
starts_with-cut k [] q e = refl
starts_with-cut [] (b ∷ p) q e = e
starts_with-cut (a ∷ k) (b ∷ p) q e = ground (arith, starts_with-cut k p q)

starts_with-slash :
    (k p : Str) (c : ℕ) (q : Str)
    → starts_with k (p ++ c ∷ q) ≡ true
    → starts_with k (p ++ c ∷ []) ≡ true
unfolding starts_with
starts_with-slash [] [] c q e = e
starts_with-slash [] (b ∷ p) c q e = e
starts_with-slash (a ∷ k) [] c q e = ground arith
starts_with-slash (a ∷ k) (b ∷ p) c q e = ground (arith, starts_with-slash k p c q)

starts_with_trans :
    (k p q : Str) → starts_with k p ≡ true → starts_with p q ≡ true → starts_with k q ≡ true
unfolding starts_with
starts_with_trans k p [] e f = refl
starts_with_trans k [] (c ∷ q) e f = ground arith
starts_with_trans [] (b ∷ p) (c ∷ q) e f = ground arith
starts_with_trans (a ∷ k) (b ∷ p) (c ∷ q) e f = ground (arith, starts_with_trans k p q)

starts_with_self : (k : Str) → starts_with k k ≡ true
unfolding starts_with
starts_with_self [] = refl
starts_with_self (a ∷ k) = ground (arith, starts_with_self k)

starts_with-name :
    (name q : Str)
    → All (λ c. (c ≢ 0) × (c ≢ b'/')) name
    → starts_with (under name) (under q) ≡ true
    → q ≡ name
unfolding starts_with
starts_with-name [] [] h e = refl
starts_with-name [] (c ∷ []) h e = ground arith
starts_with-name [] (c ∷ d ∷ q) h e = ground arith
starts_with-name (x ∷ name) [] h e = ground arith
starts_with-name (x ∷ name) (c ∷ q) h e = ground (arith, starts_with-name name q h.1)

starts_with-join :
    (path name q : Str)
    → All (λ c. (c ≢ 0) × (c ≢ b'/')) name
    → starts_with (under (join path name)) (under q) ≡ true
    → (q ≡ join path name) ⊎ (starts_with (under path) (under q) ≡ true)
unfolding starts_with
starts_with-join [] name [] h e = inr refl
starts_with-join [] name (c ∷ q) h e = inl (ground (arith, starts_with-name name q h))
starts_with-join (a ∷ path) name [] h e = inr (ground arith)
starts_with-join (a ∷ path) name (c ∷ q) h e = ground (arith, starts_with-join path name q h)

is_there_trans :
    (q p : Str) (s : List Str)
    → starts_with (under p) (under q) ≡ true
    → is_there p s ≡ true
    → is_there q s ≡ true
unfolding is_there
is_there_trans q p [] e h = h
is_there_trans q p (x ∷ s) e h =
    ground (arith, starts_with_trans (under x) (under p) (under q), is_there_trans q p s)

is_there-below : (s : List Str) (p n : Str) → is_there (join p n) s ≡ true → is_there p s ≡ true
is_there-below s p n h =
    is_there_trans p (join p n) s
      (starts_with-slash (under (join p n)) p b'/' n (
        starts_with-cut (under (join p n)) (join p n) (b'/' ∷ [])
          (starts_with_self (under (join p n)))))
      h

abbrev exists_already : IoError
exists_already = record { kind = already_exists; text = [] }

create_now : Str → List Str → IoResult (Unit {0}) × List Str
create_now p s = if is_there p s then (failed exists_already, s) else (done tt, p ∷ s)

paths_made : FileSystem
unfolding create_now
paths_made = record {
  State = List Str;
  create_dir = create_now;
  create_dir_all = λ p s. (done tt, p ∷ s);
}

there_stays :
    (s : List Str) (p q : Str) → is_there q s ≡ true → is_there q (create_now p s).1 ≡ true
unfolding create_now is_there
there_stays s p q h = ground arith

there_before :
    (s : List Str) (path name q : Str)
    → is_there path s ≡ true
    → IsName name
    → is_there q (create_now (join path name) s).1 ≡ true
    → (is_there q s ≡ true) ⊎ (q ≡ join path name)
unfolding create_now is_there
there_before s path name q d n h =
    ground (arith, starts_with-join path name q n.plain, is_there_trans q path s)

made_or_there :
    (s : List Str) (p : Str)
    → (((create_now p s).0 ≡ done tt)
        × ¬ (is_there p s ≡ true)
        × (is_there p (create_now p s).1 ≡ true))
      ⊎ ((e : IoError) × ((create_now p s).0 ≡ failed e)
          × (e.kind ≡ already_exists)
          × (is_there p s ≡ true))
unfolding create_now is_there
made_or_there s p = elim (Bool-cases (is_there p s)) [
  | inl y ↦ inr (exists_already, rw y refl, refl, y)
  | inr n ↦ inl (rw n refl, (λ y. ground arith), rw (n, starts_with_self (under p)) refl)
]

made-laws : FileSystemLaws paths_made
unfolding paths_made is_there
made-laws = record {
  Exists = λ s p. is_there p s ≡ true;
  IsDir = λ s p. is_there p s ≡ true;
  create_dir_lem = λ s path name d n. made_or_there s (join path name);
  IsDir-Exists = λ s p h. h;
  dir_stays = λ s p q h. there_stays s p q h;
  exists_stays = λ s p q h. there_stays s p q h;
  exists_before = there_before;
  create_dir_all_done = λ s p h. rw (starts_with_self (under p)) refl;
  create_dir_all_stays = λ s p q h. ground arith;
  exists_below = λ s p n h. is_there-below s p n h;
}

abbrev top : Str
top = b'/' ∷ b't' ∷ []

abbrev names : List Str
names = (b'a' ∷ []) ∷ (b'a' ∷ b'/' ∷ []) ∷ []

no_paths : paths_made.State
unfolding paths_made
no_paths = []

seeded : ℕ → counting.State
unfolding counting
seeded n = n

top_made : (paths_made.create_dir_all top no_paths).0 ≡ done tt
unfolding paths_made
top_made = refl

create-fresh_test_dirs_example :
    ((root : TestRoot) × ((create paths_made counting exists_already seeded top
          (start 3)
          no_paths).0
        ≡ done root)
      × (¬ made-laws.Exists no_paths root.path)
      × ((paths : List Str) × (fresh_test_dirs paths_made names root
              (create paths_made counting exists_already seeded top (start 3) no_paths).2
            ≡ map (λ p. some p) paths)
          × (length paths ≡ length names)
          × ((i j : ℕ) → i < j → j < length paths → get_elem? paths i ≢ get_elem? paths j)))
    ⊎ (((create paths_made counting exists_already seeded top (start 3) no_paths).0
          ≡ failed exists_already)
        × made-laws.Exists
            (paths_made.create_dir_all top no_paths).1
            (join top (run_name (counting.gen 32 (counting.gen 64 (start 3)).1).0)))
create-fresh_test_dirs_example =
    create-fresh_test_dirs paths_made made-laws counting exists_already seeded top names (start 3)
      no_paths top_made (omega arith) (omega arith)
