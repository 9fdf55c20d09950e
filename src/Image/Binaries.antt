-- ===== src/Image/Binaries.antt =====
-- internal/image/cache.go: the binaries copied into the root of a guest. `none` is no error.
use aegisvm.Base.{ℕ, List, [], ◌∷◌, Option, none, some, if◌then◌else◌, codes}
use aegisvm.Files.Paths.{FilePath, join_text, directory}
use aegisvm.Files.Os.{Os}
use aegisvm.Config.{Host, find_binary}

pub data InjectError : Type 0 where
  not_found dir_failed open_failed create_failed copy_failed : InjectError

abbrev harness_name : List ℕ
harness_name = codes "aegis-harness"

abbrev mcp_guest_name : List ℕ
mcp_guest_name = codes "aegis-mcp-guest"

module _ {S : Type 0} (os : Os S) (h : Host) where
  abbrev dest_path : FilePath → List ℕ → FilePath
  dest_path rootfs name = join_text (join_text rootfs (codes "usr/bin")) name

  unfoldable copy_to : FilePath → List ℕ → S → S × Option InjectError
  copy_to dest contents s =
      let (s1, created) = os.create dest 0o755 s in
      let (s2, copied) = os.copy dest contents s1 in
      if created
      then (if copied then (s2, none) else (s2, some copy_failed))
      else (s1, some create_failed)

  abbrev copy_opened : FilePath → Option (List ℕ) → S → S × Option InjectError
  copy_opened dest none s = (s, some open_failed)
  copy_opened dest (some contents) s = copy_to dest contents s

  -- `injectBinary`
  unfoldable pub inject_binary : FilePath → FilePath → List ℕ → S → S × Option InjectError
  unfolding copy_to
  inject_binary rootfs src name s =
      let dest = dest_path rootfs name in
      let (s1, made) = os.mkdir_all (directory dest) 0o755 s in
      let rest = copy_opened dest (os.read_file src s1) s1 in
      if made then rest else (s1, some dir_failed)

  -- `InjectHarness`
  unfoldable pub inject_harness : FilePath → FilePath → S → S × Option InjectError
  unfolding inject_binary
  inject_harness rootfs harness s = inject_binary rootfs harness harness_name s

  abbrev inject_optional : FilePath → Option FilePath → S → S × Option InjectError
  inject_optional rootfs none s = (s, none)
  inject_optional rootfs (some src) s = inject_binary rootfs src mcp_guest_name s

  abbrev then_optional :
      FilePath → Option FilePath → S × Option InjectError → S × Option InjectError
  then_optional rootfs bin_dir (s, some e) = (s, some e)
  then_optional rootfs bin_dir (s, none) =
      inject_optional rootfs (find_binary os h mcp_guest_name bin_dir s) s

  abbrev inject_found : FilePath → Option FilePath → Option FilePath → S → S × Option InjectError
  inject_found rootfs bin_dir none s = (s, some not_found)
  inject_found rootfs bin_dir (some harness) s =
      then_optional rootfs bin_dir (inject_binary rootfs harness harness_name s)

  -- `InjectGuestBinaries`
  unfoldable pub inject_guest_binaries : FilePath → Option FilePath → S → S × Option InjectError
  unfolding inject_binary find_binary
  inject_guest_binaries rootfs bin_dir s =
      inject_found rootfs bin_dir (find_binary os h harness_name bin_dir s) s

  abbrev inject_named : FilePath → Option FilePath → List ℕ → S → S × Option InjectError
  inject_named rootfs none name s = (s, some not_found)
  inject_named rootfs (some src) name s = inject_binary rootfs src name s

  -- `InjectKitBinaries`
  unfoldable pub inject_kit_binaries :
      FilePath → Option FilePath → List (List ℕ) → S → S × Option InjectError
  unfolding inject_binary find_binary
  inject_kit_binaries rootfs bin_dir [] s = (s, none)
  inject_kit_binaries rootfs bin_dir (name ∷ names) s =
      let (s1, e) = inject_named rootfs (find_binary os h name bin_dir s) name s in
      let rest = inject_kit_binaries rootfs bin_dir names s1 in
      elim e [ none ↦ rest | some err ↦ (s1, some err) ]
