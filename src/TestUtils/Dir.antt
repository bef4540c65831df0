-- ===== src/TestUtils/Dir.antt =====
-- test-utils/src/test_dir.rs: the root directory of a test run, and fresh directories in it. The file system, the texts of
-- its errors and the wait between attempts are parameters; a path is its text.
pub mod Laws
pub mod Names
pub mod Create
pub mod Fresh
use rpi4_usb_io_breaker.Base.{
  ℕ, zero, suc, ◌+◌, ◌*◌, ◌/◌, ◌%◌, ◌^◌, ◌<◌, Bool, true, false, ◌||◌, ltb, ◌==◌, Option, none,
  some, List, [], ◌∷◌, ◌++◌, map, if◌then◌else◌,
}
use rpi4_usb_io_breaker.Core.Error.{
  Str, ErrorKind, already_exists, broken_pipe, permission_denied, not_found, other_kind,
}
use rpi4_usb_io_breaker.Lmdb.Errors.{IoError}
use rpi4_usb_io_breaker.TestUtils.Random.{Rng}

-- `io::Result`
pub data IoResult (A : Type 0) : Type 0 where
  done : A → IoResult A
  failed : IoError → IoResult A

-- `std::fs`
pub record FileSystem : Type 1 where
  pub State : Type 0
  pub create_dir : Str → State → IoResult (Unit {0}) × State
  pub create_dir_all : Str → State → IoResult (Unit {0}) × State

pub data DirCreationOutcome : Type 0 where
  created existed : DirCreationOutcome

abbrev is_already_exists : ErrorKind → Bool
is_already_exists already_exists = true
is_already_exists broken_pipe = false
is_already_exists permission_denied = false
is_already_exists not_found = false
is_already_exists (other_kind n) = false

-- a digit of `{:x}`
abbrev pub hex_digit : ℕ → ℕ
hex_digit n = if ltb n 10 then n + 48 else n + 87

-- so many digits, the last ones of the number
pub hex_digits : ℕ → ℕ → Str
hex_digits zero n = []
hex_digits (suc width) n = hex_digits width (n / 16) ++ hex_digit (n % 16) ∷ []

-- `{:08x}` of a `u32`, which has no more than eight digits
pub hex8 : ℕ → Str
unfolding hex_digits
hex8 n = hex_digits 8 n

-- `Path::join`, with a name that does not start at the root
abbrev pub join : Str → Str → Str
join path name = path ++ b'/' ∷ name

-- `replace(['/', ':', '\\'], "_")`, and on each character
abbrev pub replaced_char : ℕ → ℕ
replaced_char c = if (c == b'/') || ((c == b':') || (c == 92)) then b'_' else c

abbrev pub replaced : Str → Str
replaced name = map replaced_char name

abbrev pub run_ : Str
run_ = b'r' ∷ b'u' ∷ b'n' ∷ b'_' ∷ []

abbrev pub case_ : Str
case_ = b'c' ∷ b'a' ∷ b's' ∷ b'e' ∷ b'_' ∷ []

-- `TestRootImpl`, behind the `Arc` of `TestRoot`
pub record TestRoot : Type 0 where
  pub path : Str
  pub counter : ℕ

module _ (fs : FileSystem) where
  pub try_create_dir : Str → fs.State → IoResult DirCreationOutcome × fs.State
  try_create_dir path s =
      let (r, s') = fs.create_dir path s in
      (
        elim r [
          | done _ ↦ done created
          | failed e ↦ if is_already_exists e.kind then done existed else failed e
        ],
        s',
      )

  -- `TestRoot::fresh_test_dir`: `fetch_add` wraps around, and `none` is the panic where the directory is not created
  pub fresh_test_dir : Str → TestRoot → fs.State → Option Str × TestRoot × fs.State
  fresh_test_dir name root s =
      let path = join root.path (case_ ++ (hex8 root.counter ++ b'_' ∷ replaced name)) in
      let root' = record root { counter = (root.counter + 1) % 2 ^ 32 } in
      let (r, s') = fs.create_dir path s in
      (elim r [ done _ ↦ some path | failed e ↦ none ], root', s')

  module _ (rng : Rng) (no_name_left : IoError) where
    -- `backoff_delays`: so many more delays, in nanoseconds, each drawn below a bound that doubles
    pub backoff_delays : ℕ → ℕ → rng.State → List ℕ
    backoff_delays zero delay r = []
    backoff_delays (suc left) delay r =
        let (item, r') = rng.gen_range 0 delay r in item ∷ backoff_delays left (delay * 2) r'

    -- the loop of `TestRoot::create`; the sleep after an attempt changes nothing here
    pub create_loop : List ℕ → Str → rng.State → fs.State → IoResult TestRoot × rng.State × fs.State
    unfolding try_create_dir
    create_loop [] top_path r s = (failed no_name_left, r, s)
    create_loop (delay ∷ delays) top_path r s =
        let (n, r') = rng.gen 32 r in
        let path = join top_path (run_ ++ hex8 n) in
        let (outcome, s') = try_create_dir path s in
        elim outcome [
          | failed e ↦ (failed e, r', s')
          | done o ↦ elim o [
            | created ↦ (done (record { path = path; counter = 0 }), r', s')
            | existed ↦ create_loop delays top_path r' s'
          ]
        ]

    -- `TestRoot::create`; the generator of the delays is seeded from the other one
    pub create :
        (ℕ → rng.State) → Str → rng.State → fs.State → IoResult TestRoot × rng.State × fs.State
    unfolding create_loop backoff_delays
    create seeded top_path r s =
        let (made, s') = fs.create_dir_all top_path s in
        elim made [
          | failed e ↦ (failed e, r, s')
          | done _ ↦
              let (seed, r') = rng.gen 64 r in
              create_loop (backoff_delays 10 1000000 (seeded seed)) top_path r' s'
        ]
