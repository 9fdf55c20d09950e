-- ===== src/Overlay/Copies.antt =====
-- What remains of the copies of Overlay.
use aegisvm.Base.{ℕ, ◌≡◌, refl, List, Option, none, some, Bool, true, if_elim}
use aegisvm.Files.Paths.{FilePath}
use aegisvm.Files.Os.{Os}
use aegisvm.Overlay.{OverlayError, overlay_path, staging_path, renamed, copied, staged, create}

-- What the documentation of the file system promises: a directory is there once another was renamed
-- to it.
abbrev pub RenamesThere : {S : Type 0} → Os S → Type 0
RenamesThere {S} os =
    (a b : FilePath) (s : S) → (os.rename a b s).1 ≡ true → os.stat b (os.rename a b s).0 ≡ true

module _ {S : Type 0} (os : Os S) (tar : FilePath → FilePath → S → S × Option OverlayError)
    (base_dir : FilePath) (k : RenamesThere os) where
  unfoldable Made : List ℕ → S × Option OverlayError → Type 0
  Made id r = r.1 ≡ none → os.stat (overlay_path os tar base_dir id) r.0 ≡ true

  copied-Made : (id : List ℕ) (r : S × Option OverlayError) → Made id (copied os tar base_dir id r)
  unfolding copied renamed Made
  copied-Made id (s, some e) = λ g. cc
  copied-Made id (s, none) =
      if_elim (Made id)
        (os.rename (staging_path os tar base_dir id) (overlay_path os tar base_dir id) s).1 _ _
        (λ t g. k _ _ s t) (λ t g. cc)

  staged-Made :
      (source : FilePath) (id : List ℕ) (r : S × Bool)
      → Made id (staged os tar base_dir source id r)
  unfolding staged Made
  staged-Made source id (s, ok) = if_elim (Made id) ok _ _ (λ t. copied-Made id _) (λ t g. cc)

  create-Made :
      (source : FilePath) (id : List ℕ) (s : S) → Made id (create os tar base_dir source id s)
  unfolding create Made
  create-Made source id s =
      if_elim (Made id) (os.stat (overlay_path os tar base_dir id) s) _ _ (λ t g. t)
        (λ t.
          let staging = staging_path os tar base_dir id in
          staged-Made source id (os.mkdir_all staging 0o755 (os.remove_all staging s)))

  -- Where a directory is there once another was renamed to it: an overlay that `Create` returns is
  -- there, and at any time when it is there a further `Create` for the same instance, of whatever
  -- source, returns without an error and changes nothing.
  pub create-again :
      (source other : FilePath) (id : List ℕ) (s later : S)
      → (create os tar base_dir source id s).1 ≡ none
      → os.stat (overlay_path os tar base_dir id) later ≡ true
      → (os.stat (overlay_path os tar base_dir id) (create os tar base_dir source id s).0 ≡ true)
        × (create os tar base_dir other id later ≡ (later, none))
  unfolding create Made
  create-again source other id s later h t = (create-Made source id s h, rw t refl)
