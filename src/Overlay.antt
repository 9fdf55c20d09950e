-- ===== src/Overlay.antt =====
-- internal/overlay/copy.go: copies of root file systems. The two tar processes are a parameter: what
-- they leave in the staging directory, and whether they failed.
pub mod Copies
use aegisvm.Base.{
  ℕ, ◌-◌, List, [], ◌∷◌, ◌++◌, Option, none, some, Bool, true, false, not, ◌&&◌, ◌||◌, ltb,
  if◌then◌else◌, codes,
}
use aegisvm.Files.Paths.{FilePath, join_text, join_name, has_prefix, has_suffix, clean, text_of}
use aegisvm.Files.Os.{Os, DirItem}

pub data OverlayError : Type 0 where
  staging_failed pipe_failed tar_start_failed tar_failed overlay_rename_failed : OverlayError

-- An entry of the directory of overlays: its modification time is none if `Info` fails.
pub record OverlayItem : Type 0 where
  pub name : List ℕ
  pub is_dir : Bool
  pub mod_time : Option ℕ

module _ {S : Type 0} (os : Os S) (tar : FilePath → FilePath → S → S × Option OverlayError)
    (base_dir : FilePath) where
  -- `Path`
  abbrev pub overlay_path : List ℕ → FilePath
  overlay_path id = join_text base_dir id

  abbrev pub staging_path : List ℕ → FilePath
  staging_path id = clean (text_of (overlay_path id) ++ codes ".tmp")

  unfoldable pub renamed : List ℕ → S × Bool → S × Option OverlayError
  renamed id (s, ok) =
      if ok then (s, none) else (os.remove_all (staging_path id) s, some overlay_rename_failed)

  unfoldable pub copied : List ℕ → S × Option OverlayError → S × Option OverlayError
  unfolding renamed
  copied id (s, some e) = (os.remove_all (staging_path id) s, some e)
  copied id (s, none) = renamed id (os.rename (staging_path id) (overlay_path id) s)

  unfoldable pub staged : FilePath → List ℕ → S × Bool → S × Option OverlayError
  unfolding copied
  staged source id (s, ok) =
      if ok then copied id (tar source (staging_path id) s) else (s, some staging_failed)

  -- `Create`; no error is the overlay at `overlay_path`.
  unfoldable pub create : FilePath → List ℕ → S → S × Option OverlayError
  unfolding staged
  create source id s =
      if os.stat (overlay_path id) s
      then (s, none)
      else staged source id
          (os.mkdir_all (staging_path id) 0o755 (os.remove_all (staging_path id) s))

  -- `Remove`
  abbrev pub remove : List ℕ → S → S
  remove id s = os.remove_all (overlay_path id) s

  abbrev is_before : Option ℕ → ℕ → Bool
  is_before none cutoff = false
  is_before (some t) cutoff = ltb t cutoff

  -- Whether `CleanStale` takes an entry away.
  unfoldable pub is_stale : ℕ → OverlayItem → Bool
  is_stale cutoff e =
      e.is_dir
      && (has_suffix (codes ".tmp") e.name
          || (has_prefix (codes "task-") e.name && is_before e.mod_time cutoff))

  unfoldable pub clean_items : ℕ → List OverlayItem → S → S
  unfolding is_stale
  clean_items cutoff [] s = s
  clean_items cutoff (e ∷ es) s =
      clean_items cutoff es
        (if is_stale cutoff e then os.remove_all (join_text base_dir e.name) s else s)

  -- `CleanStale`; the entries are none if the directory cannot be read.
  unfoldable pub clean_stale : ℕ → ℕ → Option (List OverlayItem) → S → S
  unfolding clean_items
  clean_stale now max_age none s = s
  clean_stale now max_age (some es) s = clean_items (now - max_age) es s
