-- ===== src/TestUtils/Dir/Fresh.antt =====
-- Fresh test directories: each call makes another one, up to the number of values of the counter.
use rpi4_usb_io_breaker.Base.{
  ℕ, zero, suc, ◌+◌, ◌%◌, ◌^◌, ◌≤◌, ◌<◌, Option, some, List, [], ◌∷◌, map, All, length, get_elem?,
  arith, ◌≡◌, ◌≢◌, refl, sym, ◌∙◌, ap, inl, inr,
}
use rpi4_usb_io_breaker.Core.Error.{Str}
use rpi4_usb_io_breaker.TestUtils.Dir.{FileSystem, done, join, TestRoot, fresh_test_dir}
use rpi4_usb_io_breaker.TestUtils.Dir.Laws.{FileSystemLaws}
use rpi4_usb_io_breaker.TestUtils.Dir.Names.{IsText, case_name, case_name-IsName, case_name-inj}

module _ (fs : FileSystem) where
  -- one call after the other
  abbrev pub fresh_test_dirs : List Str → TestRoot → fs.State → List (Option Str)
  fresh_test_dirs [] root s = []
  fresh_test_dirs (name ∷ names) root s =
      let (path, root', s') = fresh_test_dir fs name root s in path ∷ fresh_test_dirs names root' s'

  -- the paths of the directories from a number on
  abbrev numbered : Str → ℕ → List Str → List Str
  numbered path n [] = []
  numbered path n (name ∷ names) = join path (case_name n name) ∷ numbered path (suc n) names

  get_elem?-numbered :
      (path : Str) (n : ℕ) (names : List Str) (i : ℕ)
      → i < length (numbered path n names)
      → (name : Str) × (get_elem? (numbered path n names) i
          ≡ some (join path (case_name (n + i) name)))
  get_elem?-numbered path n [] i h = elim h [ ]
  get_elem?-numbered path n (name ∷ names) zero h =
      (name, ap (λ k. some (join path (case_name k name))) (omega arith))
  get_elem?-numbered path n (name ∷ names) (suc i) h =
      let (other, e) = get_elem?-numbered path (suc n) names i (omega arith) in
      (other, e ∙ ap (λ k. some (join path (case_name k other))) (omega arith))

  some_eq : (a b : Str) → some a ≡ some b → a ≡ b
  some_eq a b e = ground arith

  length-numbered :
      (path : Str) (n : ℕ) (names : List Str) → length (numbered path n names) ≡ length names
  length-numbered path n [] = refl
  length-numbered path n (name ∷ names) = ap suc (length-numbered path (suc n) names)

  numbered-Distinct :
      (path : Str) (n : ℕ) (names : List Str)
      → n + length names ≤ 2 ^ 32
      → (i j : ℕ) → i < j
      → j < length (numbered path n names)
      → get_elem? (numbered path n names) i ≢ get_elem? (numbered path n names) j
  numbered-Distinct path n names h i j lt inside e =
      let size = length-numbered path n names in
      let (a, at) = get_elem?-numbered path n names i (omega arith) in
      let (b, bt) = get_elem?-numbered path n names j inside in
      let both : some (join path (case_name (n + i) a)) ≡ some (join path (case_name (n + j) b)) =
        sym at ∙ e ∙ bt in
      let same : join path (case_name (n + i) a) ≡ join path (case_name (n + j) b) =
        some_eq _ _ both in
      let numbers =
        case_name-inj path (n + i) (n + j) a b (omega (arith, size)) (omega (arith, size)) same in
      absurd (omega (arith, numbers))

  module _ (laws : FileSystemLaws fs) where
    -- no directory with that number, or a higher one, is there
    abbrev pub Free : Str → ℕ → fs.State → Type 0
    Free path n s =
        (m : ℕ) (name : Str) → n ≤ m → m < 2 ^ 32 → ¬ laws.Exists s (join path (case_name m name))

    made_one :
        (path : Str) (n : ℕ) (name : Str) (s : fs.State)
        → (fs.create_dir (join path (case_name n name)) s).0 ≡ done tt
        → fresh_test_dir fs name (record { path = path; counter = n }) s ≡ (
          some (join path (case_name n name)),
          record { path = path; counter = (n + 1) % 2 ^ 32 },
          (fs.create_dir (join path (case_name n name)) s).1,
        )
    unfolding fresh_test_dir
    made_one path n name s made = rw made refl

    create_dir-Free :
        (path : Str) (n : ℕ) (name : Str) (s : fs.State)
        → n < 2 ^ 32
        → laws.IsDir s path
        → IsText name
        → Free path n s
        → Free path (suc n) (fs.create_dir (join path (case_name n name)) s).1
    create_dir-Free path n name s h d t f m other low high there =
        elim (laws.exists_before s path (case_name n name) (join path (case_name m other)) d
          (case_name-IsName n name t) there) [
            | inl old ↦ f m other (omega arith) high old
            | inr same ↦ absurd (omega (arith, case_name-inj path m n other name high h same))
          ]

    fresh_test_dirs-numbered :
        (names : List Str) (path : Str) (counter n : ℕ) (s : fs.State)
        → counter ≡ n % 2 ^ 32
        → n + length names ≤ 2 ^ 32
        → All IsText names
        → laws.IsDir s path
        → Free path n s
        → fresh_test_dirs names (record { path = path; counter = counter }) s
          ≡ map (λ p. some p) (numbered path n names)
    fresh_test_dirs-numbered [] path counter n s c h t d f = refl
    fresh_test_dirs-numbered (name ∷ names) path counter n s c h t d f =
        let small : counter ≡ n = omega (arith, c) in
        let p = join path (case_name n name) in
        elim (laws.create_dir_lem s path (case_name n name) d (case_name-IsName n name t.0)) [
          | inr (e, refused, kind, old) ↦ absurd (f n name (omega arith) (omega arith) old)
          | inl (made, new, dir) ↦
              let s' = (fs.create_dir p s).1 in
              let free : Free path (suc n) s' =
                create_dir-Free path n name s (omega arith) d t.0 f in
              let rest =
                fresh_test_dirs-numbered names path ((n + 1) % 2 ^ 32) (suc n) s' (omega arith)
                  (omega arith) t.1 (laws.dir_stays s p path d) free in
              rw small (rw (made_one path n name s made) (ap (λ l. some p ∷ l) rest))
        ]

    -- Where the file system works as documented and nothing fails but the creation of what exists: in a root directory
    -- with no test directory yet, and its counter at 0, calls of `fresh_test_dir` make distinct directories and none of
    -- them panics, up to as many calls as a `u32` has values, for names without NUL of at most 241 bytes.
    pub fresh_test_dirs-Distinct :
        (names : List Str) (root : TestRoot) (s : fs.State)
        → root.counter ≡ 0
        → length names ≤ 2 ^ 32
        → All IsText names
        → laws.IsDir s root.path
        → Free root.path 0 s
        → (paths : List Str) × (fresh_test_dirs names root s ≡ map (λ p. some p) paths)
          × (length paths ≡ length names)
          × ((i j : ℕ) → i < j → j < length paths → get_elem? paths i ≢ get_elem? paths j)
    fresh_test_dirs-Distinct names root s c h t d f = (
      numbered root.path 0 names,
      fresh_test_dirs-numbered names root.path root.counter 0 s (omega (arith, c)) (omega arith) t d
          f,
      length-numbered root.path 0 names,
      numbered-Distinct root.path 0 names (omega arith),
    )
