-- ===== src/Kits.antt =====
-- internal/kit/kit.go: the manifests of kits, and where they are looked for. JSON is a parameter: what
-- `json.Unmarshal` makes of the bytes of a manifest, or none.
pub mod Listing
pub mod Seen
use aegisvm.Base.{
  ℕ, List, [], ◌∷◌, ◌++◌, Option, none, some, Bool, true, false, not, ◌&&◌, ◌||◌, if◌then◌else◌,
  codes, same_text,
}
use aegisvm.Files.Paths.{
  FilePath, join_name, join_text, directory, has_suffix, trim_suffix, same_path,
}
use aegisvm.Files.Os.{Os, DirItem}
use aegisvm.Config.{Host, find_binary}

-- `ConfigFile`; the default is its JSON, if there is one.
pub record ConfigFile : Type 0 where
  pub path : List ℕ
  pub label : List ℕ
  pub default_config : Option (List ℕ)

pub record InstanceDaemon : Type 0 where
  pub binary : List ℕ
  pub config : Option ConfigFile

pub record Manifest : Type 0 where
  pub name : List ℕ
  pub version : List ℕ
  pub description : List ℕ
  pub usage : List ℕ
  pub instance_daemons : List InstanceDaemon
  pub config : List ConfigFile
  pub image_base : List ℕ
  pub image_inject : List (List ℕ)
  pub default_command : List (List ℕ)
  pub default_capabilities : Option (List ℕ)

abbrev pub json_suffix : List ℕ
json_suffix = codes ".json"

-- `KitsDir`
abbrev pub kits_dir : Host → FilePath
kits_dir h = join_text h.home (codes ".aegis/kits")

unfoldable member : FilePath → List FilePath → Bool
unfolding same_path
member p [] = false
member p (d ∷ ds) = same_path d p || member p ds

abbrev dev_dirs : Option FilePath → List FilePath
dev_dirs none = []
dev_dirs (some exe) = join_name (directory (directory exe)) (codes "kits") ∷ []

unfoldable with_user : FilePath → List FilePath → List FilePath
unfolding same_path
with_user user [] = user ∷ []
with_user user (d ∷ ds) = if same_path d user then d ∷ ds else (d ∷ ds) ++ (user ∷ [])

abbrev with_share : Option FilePath → List FilePath → List FilePath
with_share none ds = ds
with_share (some share) ds = if member share ds then ds else ds ++ (share ∷ [])

-- `kitSearchDirs`; the share directory is fixed when the program is built.
unfoldable pub kit_search_dirs : Host → Option FilePath → List FilePath
unfolding member with_user
kit_search_dirs h share = with_share share (with_user (kits_dir h) (dev_dirs h.executable))

module _ {S : Type 0} (os : Os S) (unmarshal : List ℕ → Option Manifest) where
  abbrev parse_read : Option (List ℕ) → Option Manifest
  parse_read none = none
  parse_read (some contents) = unmarshal contents

  -- The manifest of a file, if it can be read and parsed.
  unfoldable pub read_manifest : FilePath → List ℕ → S → Option Manifest
  read_manifest dir file s = parse_read (os.read_file (join_text dir file) s)

  abbrev pub first_some : Option Manifest → Option Manifest → Option Manifest
  first_some none o = o
  first_some (some m) o = some m

  -- `LoadManifest`, given the directories
  unfoldable pub load_manifest : List FilePath → List ℕ → S → Option Manifest
  unfolding read_manifest
  load_manifest [] name s = none
  load_manifest (d ∷ ds) name s =
      first_some (read_manifest d (name ++ json_suffix) s) (load_manifest ds name s)

  -- What is listed so far: the keys of `seen` with the manifests, since both grow together.
  abbrev pub Listed : Type 0
  Listed = List (List ℕ × Manifest)

  unfoldable pub seen : List ℕ → Listed → Bool
  seen name [] = false
  seen name ((n, m) ∷ l) = if same_text n name then true else seen name l

  abbrev pub list_read : List ℕ → Option Manifest → Listed → Listed
  list_read name none l = l
  list_read name (some m) l = l ++ ((name, m) ∷ [])

  unfoldable pub list_item : FilePath → DirItem → S → Listed → Listed
  unfolding read_manifest seen trim_suffix
  list_item dir e s l =
      if e.is_dir || not (has_suffix json_suffix e.name)
      then l
      else if seen (trim_suffix json_suffix e.name) l
      then l
      else list_read (trim_suffix json_suffix e.name) (read_manifest dir e.name s) l

  unfoldable pub list_items : FilePath → List DirItem → S → Listed → Listed
  unfolding list_item
  list_items dir [] s l = l
  list_items dir (e ∷ es) s l = list_items dir es s (list_item dir e s l)

  abbrev pub list_read_dir : FilePath → Option (List DirItem) → S → Listed → Listed
  list_read_dir dir none s l = l
  list_read_dir dir (some es) s l = list_items dir es s l

  unfoldable pub list_from : List FilePath → S → Listed → Listed
  unfolding list_items
  list_from [] s l = l
  list_from (d ∷ ds) s l = list_from ds s (list_read_dir d (os.read_dir d s) s l)

  -- `ListManifests`, given the directories; each manifest with the name of its file.
  unfoldable pub list_manifests : List FilePath → S → Listed
  unfolding list_from
  list_manifests dirs s = list_from dirs s []

  abbrev missing_of : Option FilePath → List ℕ → List (List ℕ)
  missing_of none name = name ∷ []
  missing_of (some p) name = []

  unfoldable missing_binaries : Host → List (List ℕ) → Option FilePath → S → List (List ℕ)
  unfolding find_binary
  missing_binaries h [] bin_dir s = []
  missing_binaries h (b ∷ bs) bin_dir s =
      missing_of (find_binary os h b bin_dir s) b ++ missing_binaries h bs bin_dir s

  abbrev daemon_binaries : List InstanceDaemon → List (List ℕ)
  daemon_binaries [] = []
  daemon_binaries (d ∷ ds) = d.binary ∷ daemon_binaries ds

  -- `ValidateManifest`
  unfoldable pub validate_manifest : Host → Manifest → Option FilePath → S → List (List ℕ)
  unfolding missing_binaries
  validate_manifest h m bin_dir s =
      missing_binaries h (daemon_binaries m.instance_daemons) bin_dir s
      ++ missing_binaries h m.image_inject bin_dir s
