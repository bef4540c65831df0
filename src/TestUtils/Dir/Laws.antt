-- ===== src/TestUtils/Dir/Laws.antt =====
-- A file system as documented, where nothing fails but the creation of what exists already.
use rpi4_usb_io_breaker.Base.{ℕ, ◌∷◌, All, length, ◌≡◌, ◌≢◌, ◌≤◌, ◌⊎◌}
use rpi4_usb_io_breaker.Core.Error.{Str, already_exists}
use rpi4_usb_io_breaker.Lmdb.Errors.{IoError}
use rpi4_usb_io_breaker.TestUtils.Dir.{done, failed, FileSystem, join}

-- a name for an entry of a directory
pub record IsName (name : Str) : Type 0 where
  pub short : length name ≤ 255
  pub plain : All (λ c. (c ≢ 0) × (c ≢ b'/')) name
  pub first : (c : ℕ) × (rest : Str) × (name ≡ c ∷ rest) × (c ≢ b'.')

pub record FileSystemLaws (fs : FileSystem) : Type 1 where
  pub Exists : fs.State → Str → Type 0
  pub IsDir : fs.State → Str → Type 0
  pub create_dir_lem :
      (s : fs.State) (path name : Str)
      → IsDir s path
      → IsName name
      → (((fs.create_dir (join path name) s).0 ≡ done tt)
          × ¬ Exists s (join path name)
          × IsDir (fs.create_dir (join path name) s).1 (join path name))
        ⊎ ((e : IoError) × ((fs.create_dir (join path name) s).0 ≡ failed e)
            × (e.kind ≡ already_exists)
            × Exists s (join path name))
  pub IsDir-Exists : (s : fs.State) (p : Str) → IsDir s p → Exists s p
  -- what there is stays, and only the new directory comes to it
  pub dir_stays : (s : fs.State) (p q : Str) → IsDir s q → IsDir (fs.create_dir p s).1 q
  pub exists_stays : (s : fs.State) (p q : Str) → Exists s q → Exists (fs.create_dir p s).1 q
  pub exists_before :
      (s : fs.State) (path name q : Str)
      → IsDir s path
      → IsName name
      → Exists (fs.create_dir (join path name) s).1 q
      → Exists s q ⊎ (q ≡ join path name)
  pub create_dir_all_done :
      (s : fs.State) (p : Str)
      → (fs.create_dir_all p s).0 ≡ done tt
      → IsDir (fs.create_dir_all p s).1 p
  pub create_dir_all_stays :
      (s : fs.State) (p q : Str) → Exists s q → Exists (fs.create_dir_all p s).1 q
  pub exists_below : (s : fs.State) (path name : Str) → Exists s (join path name) → Exists s path
