-- ===== src/Config.antt =====
-- internal/config: the configuration of the daemon, and where binaries are looked for. The operating
-- system, its directories and the file system are arguments. A setting that is empty is `none`.
use aegisvm.Base.{
  ℕ, List, [], ◌∷◌, ◌++◌, ◌*◌, Option, none, some, Bool, true, false, ◌&&◌, ◌||◌, if◌then◌else◌,
  String, ◌=s◌, codes,
}
use aegisvm.Files.Paths.{FilePath, clean, join, join_name, join_text, directory}
use aegisvm.Files.Os.{Os}

abbrev pub second : ℕ
second = 1000000000

-- `Config`; times are nanoseconds.
pub record Config : Type 0 where
  pub data_dir : FilePath
  pub bin_dir : FilePath
  pub socket_path : FilePath
  pub default_memory_mb : ℕ
  pub default_vcpus : ℕ
  pub router_addr : String
  pub db_path : FilePath
  pub image_cache_dir : FilePath
  pub overlays_dir : FilePath
  pub workspaces_dir : FilePath
  pub logs_dir : FilePath
  pub master_key_path : FilePath
  pub pause_after_idle : ℕ
  pub stop_after_idle : ℕ
  pub network_backend : String
  pub kernel_path : FilePath
  pub cloud_hypervisor_bin : Option FilePath
  pub virtiofsd_bin : Option FilePath

-- What the process finds.
pub record Host : Type 0 where
  pub goos : String
  pub goarch : String
  pub home : FilePath
  pub executable : Option FilePath
  -- The directory that relative paths are from.
  pub cwd : FilePath
  -- `exec.LookPath`
  pub look_path : List ℕ → Option FilePath

-- `Platform`
pub record Platform : Type 0 where
  pub os : String
  pub arch : String
  pub backend : String
  pub needs_root : Bool

-- `DetectPlatform`
unfoldable pub detect_platform : Host → Option Platform
detect_platform h =
    if (h.goos =s "darwin") && (h.goarch =s "arm64")
    then some (record { os = h.goos; arch = h.goarch; backend = "libkrun"; needs_root = false })
    else if h.goos =s "linux"
    then some
        (record { os = h.goos; arch = h.goarch; backend = "cloud-hypervisor"; needs_root = true })
    else none

abbrev dir_of_executable : Option FilePath → FilePath
dir_of_executable none = clean (codes ".")
dir_of_executable (some exe) = directory exe

-- `executableDir`
abbrev pub executable_dir : Host → FilePath
executable_dir h = dir_of_executable h.executable

-- `ResolveNetworkBackend`
unfoldable pub resolve_network_backend : Host → Config → Config
resolve_network_backend h c =
    if (c.network_backend =s "gvproxy")
      || (c.network_backend =s "tsi")
      || (c.network_backend =s "tap")
    then c
    else record c {
      network_backend =
          if h.goos =s "darwin" then "gvproxy" else if h.goos =s "linux" then "tap" else "tsi";
    }

-- `filepath.Abs`
abbrev absolute : Host → FilePath → FilePath
absolute h p = if p.rooted then p else join h.cwd p

abbrev pub or_else : Option FilePath → Option FilePath → Option FilePath
or_else none q = q
or_else (some p) q = some p

module _ {S : Type 0} (os : Os S) (h : Host) where
  abbrev if_there : FilePath → FilePath → S → Option FilePath
  if_there p result s = if os.stat p s then some result else none

  -- The first of some directories that has the binary.
  abbrev first_there : List FilePath → List ℕ → S → Option FilePath
  first_there [] name s = none
  first_there (d ∷ ds) name s =
      let rest = first_there ds name s in
      or_else (if_there (join_text d name) (join_text d name) s) rest

  abbrev beside : Option FilePath → List ℕ → S → Option FilePath
  beside none name s = none
  beside (some dir) name s =
      or_else (if_there (join_text dir name) (absolute h (join_text dir name)) s) (
        first_there
          (join_name (directory dir) (codes "Resources")
            ∷ join_name (directory dir) (codes "MacOS")
            ∷ [])
          name s)

  abbrev system_dirs : List FilePath
  system_dirs =
      clean (codes "/usr/lib/aegisvm")
      ∷ clean (codes "/usr/libexec")
      ∷ clean (codes "/usr/local/bin")
      ∷ clean (codes "/opt/homebrew/bin")
      ∷ []

  -- `FindBinary`
  unfoldable pub find_binary : List ℕ → Option FilePath → S → Option FilePath
  find_binary name bin_dir s =
      or_else (beside bin_dir name s) (or_else (h.look_path name) (first_there system_dirs name s))

  -- `ResolveBinaries`
  unfoldable pub resolve_binaries : Config → S → Config
  unfolding find_binary
  resolve_binaries c s =
      if h.goos =s "linux"
      then record c {
        cloud_hypervisor_bin =
            or_else c.cloud_hypervisor_bin
              (find_binary (codes "cloud-hypervisor") (some c.bin_dir) s);
        virtiofsd_bin =
            or_else c.virtiofsd_bin (find_binary (codes "virtiofsd") (some c.bin_dir) s);
      }
      else c

  abbrev aegis_dir : FilePath
  aegis_dir = join_name h.home (codes ".aegis")

  abbrev user_kernel : FilePath
  user_kernel = join_text aegis_dir (codes "kernel/vmlinux")

  abbrev system_kernel : FilePath
  system_kernel = clean (codes "/usr/share/aegisvm/kernel/vmlinux")

  abbrev kernel_for : S → FilePath
  kernel_for s =
      if h.goos =s "linux"
      then if os.stat user_kernel s
        then user_kernel
        else if os.stat system_kernel s
        then system_kernel
        else user_kernel
      else user_kernel

  -- `DefaultConfig`
  unfoldable pub default_config : S → Config
  default_config s = record {
    data_dir = join_name aegis_dir (codes "data");
    bin_dir = executable_dir h;
    socket_path = join_name aegis_dir (codes "aegisd.sock");
    default_memory_mb = 512;
    default_vcpus = 1;
    router_addr = "127.0.0.1:8099";
    db_path = join_text aegis_dir (codes "data/aegis.db");
    image_cache_dir = join_text aegis_dir (codes "data/images");
    overlays_dir = join_text aegis_dir (codes "data/overlays");
    workspaces_dir = join_text aegis_dir (codes "data/workspaces");
    logs_dir = join_text aegis_dir (codes "data/logs");
    master_key_path = join_name aegis_dir (codes "master.key");
    pause_after_idle = 60 * second;
    stop_after_idle = 5 * 60 * second;
    network_backend = "auto";
    kernel_path = kernel_for s;
    cloud_hypervisor_bin = none;
    virtiofsd_bin = none;
  }

  -- A list of directories is made up to the first that fails.
  unfoldable make_dirs : List FilePath → S → S × Bool
  make_dirs [] s = (s, true)
  make_dirs (d ∷ ds) s =
      let (s1, ok) = os.mkdir_all d 0o700 s in
      let rest = make_dirs ds s1 in if ok then rest else (s1, false)

  -- `EnsureDirs`; false is an error.
  unfoldable pub ensure_dirs : Config → S → S × Bool
  unfolding make_dirs
  ensure_dirs c s =
      make_dirs
        ((c.data_dir
            ∷ join_name c.data_dir (codes "sockets")
            ∷ directory c.socket_path
            ∷ c.image_cache_dir
            ∷ c.overlays_dir
            ∷ c.workspaces_dir
            ∷ c.logs_dir
            ∷ [])
          ++ (if h.goos =s "linux" then directory c.kernel_path ∷ [] else []))
        s
