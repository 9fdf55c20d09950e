-- ===== src/Files/Os.antt =====
-- The file system as the program calls it: an interface, since it is the kernel's. `S` is its
-- state. A path that is not absolute is one from the directory of the process.
use aegisvm.Base.{ℕ, List, Option, Bool}
use aegisvm.Files.Paths.{FilePath}

pub record DirItem : Type 0 where
  pub name : List ℕ
  pub is_dir : Bool

pub record Os (S : Type 0) : Type 0 where
  -- `os.ReadDir`; `none` is an error.
  pub read_dir : FilePath → S → Option (List DirItem)
  -- Whether `os.Stat` succeeds.
  pub stat : FilePath → S → Bool
  pub read_file : FilePath → S → Option (List ℕ)
  -- `os.RemoveAll`, whose error the code does not look at.
  pub remove_all : FilePath → S → S
  -- `os.Remove`, likewise.
  pub remove : FilePath → S → S
  -- Path and mode; false is an error, here and below.
  pub mkdir_all : FilePath → ℕ → S → S × Bool
  -- `os.OpenFile` with O_CREATE, O_WRONLY and O_TRUNC
  pub create : FilePath → ℕ → S → S × Bool
  -- `io.Copy` to the file that was just created there
  pub copy : FilePath → List ℕ → S → S × Bool
  -- `os.Symlink`: what the link says, and where it is.
  pub symlink : List ℕ → FilePath → S → S × Bool
  -- `os.Link`: the file there is, and its new name.
  pub link : FilePath → FilePath → S → S × Bool
  pub rename : FilePath → FilePath → S → S × Bool
  -- `os.WriteFile`, whose error the code does not look at.
  pub write_file : FilePath → List ℕ → S → S
