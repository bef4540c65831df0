-- ===== src/TestUtils/Dir/Create.antt =====
-- `TestRoot::create` makes a directory that was not there, and the test directories in it are fresh.
use rpi4_usb_io_breaker.Base.{
  ℕ, ◌^◌, ◌≤◌, ◌<◌, some, List, [], ◌∷◌, map, All, length, get_elem?, arith, ◌≡◌, ◌≢◌, refl, ◌⊎◌,
  inl, inr,
}
use rpi4_usb_io_breaker.Core.Error.{Str, already_exists}
use rpi4_usb_io_breaker.Lmdb.Errors.{IoError}
use rpi4_usb_io_breaker.TestUtils.Random.{Rng}
use rpi4_usb_io_breaker.TestUtils.Dir.{
  FileSystem, IoResult, done, failed, join, TestRoot, create_loop, backoff_delays, create,
}
use rpi4_usb_io_breaker.TestUtils.Dir.Laws.{IsName, FileSystemLaws}
use rpi4_usb_io_breaker.TestUtils.Dir.Names.{IsText, run_name, run_name-IsName, case_name}
use rpi4_usb_io_breaker.TestUtils.Dir.Fresh.{fresh_test_dirs, Free, fresh_test_dirs-Distinct}

join-ne : (path name : Str) → join path name ≢ path
join-ne [] name e = ground arith
join-ne (c ∷ path) name e = join-ne path name (ground arith)

module _ (fs : FileSystem) (laws : FileSystemLaws fs) (rng : Rng) (no_name_left : IoError) where
  -- a new root, which was not there in `s`, and has no test directory
  abbrev Made : fs.State → IoResult TestRoot × rng.State × fs.State → Type 0
  Made s r =
      (root : TestRoot) × (r.0 ≡ done root)
      × (root.counter ≡ 0)
      × (¬ laws.Exists s root.path)
      × laws.IsDir r.2 root.path
      × Free fs laws root.path 0 r.2

  abbrev Next : Str → rng.State → fs.State → fs.State
  Next top r s = (fs.create_dir (join top (run_name (rng.gen 32 r).0)) s).1

  loop_created :
      (delay : ℕ) (delays : List ℕ) (top : Str) (r : rng.State) (s : fs.State)
      → (fs.create_dir (join top (run_name (rng.gen 32 r).0)) s).0 ≡ done tt
      → create_loop fs rng no_name_left (delay ∷ delays) top r s ≡ (
        done (record { path = join top (run_name (rng.gen 32 r).0); counter = 0 }),
        (rng.gen 32 r).1,
        Next top r s,
      )
  unfolding create_loop
  loop_created delay delays top r s e = rw e refl

  loop_existed :
      (delay : ℕ) (delays : List ℕ) (top : Str) (r : rng.State) (s : fs.State) (e : IoError)
      → (fs.create_dir (join top (run_name (rng.gen 32 r).0)) s).0 ≡ failed e
      → e.kind ≡ already_exists
      → create_loop fs rng no_name_left (delay ∷ delays) top r s
        ≡ create_loop fs rng no_name_left delays top (rng.gen 32 r).1 (Next top r s)
  unfolding create_loop
  loop_existed delay delays top r s e refused kind = rw (refused, kind) refl

  created-Free :
      (s : fs.State) (top name : Str)
      → laws.IsDir s top
      → IsName name
      → ¬ laws.Exists s (join top name)
      → Free fs laws (join top name) 0 (fs.create_dir (join top name) s).1
  created-Free s top name d ok_name new m x low high there =
      elim (laws.exists_before s top name (join (join top name) (case_name m x)) d ok_name there) [
        | inl old ↦ new (laws.exists_below s (join top name) (case_name m x) old)
        | inr same ↦ join-ne (join top name) (case_name m x) same
      ]

  create_loop_lem :
      (delays : List ℕ) (top : Str) (r : rng.State) (s : fs.State)
      → laws.IsDir s top
      → Made s (create_loop fs rng no_name_left delays top r s)
        ⊎ (((create_loop fs rng no_name_left delays top r s).0 ≡ failed no_name_left)
            × ((delays ≡ []) ⊎ laws.Exists s (join top (run_name (rng.gen 32 r).0))))
  create_loop_lem [] top r s d = inr (unfold create_loop in refl, inl refl)
  create_loop_lem (delay ∷ delays) top r s d =
      let name = run_name (rng.gen 32 r).0 in
      elim (laws.create_dir_lem s top name d (run_name-IsName (rng.gen 32 r).0)) [
        | inl (made, new, dir) ↦
            let root : TestRoot = record { path = join top name; counter = 0 } in
            rw (loop_created delay delays top r s made) (
              inl (
                root,
                refl,
                refl,
                new,
                dir,
                created-Free s top name d (run_name-IsName (rng.gen 32 r).0) new,
              ))
        | inr (e, refused, kind, old) ↦
            rw (loop_existed delay delays top r s e refused kind)
              (elim (create_loop_lem delays top (rng.gen 32 r).1 (Next top r s)
                (laws.dir_stays s (join top name) top d)) [
                  | inl (root, returned, zeroed, new, dir, free) ↦ inl (
                    root,
                    returned,
                    zeroed,
                    (λ was. new (laws.exists_stays s (join top name) root.path was)),
                    dir,
                    free,
                  )
                  | inr (gone, _) ↦ inr (gone, inr old)
                ])
      ]

  created_in :
      (seeded : ℕ → rng.State) (top : Str) (r : rng.State) (s : fs.State)
      → (fs.create_dir_all top s).0 ≡ done tt
      → create fs rng no_name_left seeded top r s
        ≡ create_loop fs rng no_name_left
            (backoff_delays fs rng no_name_left 10 1000000 (seeded (rng.gen 64 r).0))
            top
            (rng.gen 64 r).1
            (fs.create_dir_all top s).1
  unfolding create
  created_in seeded top r s made = rw (create, made) refl

  ten_delays : (x : rng.State) → backoff_delays fs rng no_name_left 10 1000000 x ≢ []
  unfolding backoff_delays
  ten_delays x e = ground arith

  -- Where the file system works as documented and nothing fails but the creation of what exists, and the top directory is
  -- there or can be made: `TestRoot::create` makes a root directory that was not there before, in which calls of
  -- `fresh_test_dir` then make distinct directories, without a panic, up to as many as a `u32` has values, for names
  -- without NUL of at most 241 bytes. Or it fails since no attempted name was left; then the first name that it drew
  -- was taken.
  pub create-fresh_test_dirs :
      (seeded : ℕ → rng.State) (top : Str) (names : List Str) (r : rng.State) (s : fs.State)
      → (fs.create_dir_all top s).0 ≡ done tt
      → length names ≤ 2 ^ 32
      → All IsText names
      → ((root : TestRoot) × ((create fs rng no_name_left seeded top r s).0 ≡ done root)
          × (¬ laws.Exists s root.path)
          × ((paths : List Str) × (fresh_test_dirs fs names root
                  (create fs rng no_name_left seeded top r s).2
                ≡ map (λ p. some p) paths)
              × (length paths ≡ length names)
              × ((i j : ℕ) → i < j → j < length paths → get_elem? paths i ≢ get_elem? paths j)))
        ⊎ (((create fs rng no_name_left seeded top r s).0 ≡ failed no_name_left)
            × laws.Exists
                (fs.create_dir_all top s).1
                (join top (run_name (rng.gen 32 (rng.gen 64 r).1).0)))
  create-fresh_test_dirs seeded top names r s made h t =
      let s' = (fs.create_dir_all top s).1 in
      let delays = backoff_delays fs rng no_name_left 10 1000000 (seeded (rng.gen 64 r).0) in
      let e : create fs rng no_name_left seeded top r s
          ≡ create_loop fs rng no_name_left delays top (rng.gen 64 r).1 s' =
        created_in seeded top r s made in
      rw e
        (elim (create_loop_lem delays top (rng.gen 64 r).1 s'
          (laws.create_dir_all_done s top made)) [
            | inl (root, returned, zeroed, new, dir, free) ↦ inl (
              root,
              returned,
              (λ was. new (laws.create_dir_all_stays s top root.path was)),
              fresh_test_dirs-Distinct fs laws names root _ zeroed h t dir free,
            )
            | inr (gone, inr old) ↦ inr (gone, old)
            | inr (gone, inl none_drawn) ↦ absurd (ten_delays (seeded (rng.gen 64 r).0) none_drawn)
          ])
