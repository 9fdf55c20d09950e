-- ===== src/Tests/Disks.antt =====
-- Images, overlays, blobs and kits on small file systems.
use aegisvm.Base.{
  ℕ, ◌≡◌, ◌≢◌, ◌<◌, refl, subst, List, [], ◌∷◌, Option, none, some, Bool, true, false, codes, split,
  same_text, same_text_refl, if◌then◌else◌, All, replicate, length, arith, ap, ◌=s◌, ◌∙◌, ◌%◌, zero,
  suc, Bool-cases, inl, inr,
}
use aegisvm.Files.Paths.{
  FilePath, has_suffix, trim_suffix, clean, text_of, dot_dot, base_name, join_name, has_prefix,
}
use aegisvm.Files.Paths.Below.{Within}
use aegisvm.Files.Os.{Os, DirItem}
use aegisvm.Image.Unpack.{Header, regular, hard, Layer, unpack}
use aegisvm.Image.Unpack.Confined.{Kept, TameLayers, unpack-keeps}
use aegisvm.Image.Pull.{Pulled}
use aegisvm.Image.Cache.{ListCodec, CacheState, got, get_or_pull}
use aegisvm.Image.Cache.Hits.{KeepsFiles}
use aegisvm.Image.Cache.Later.{gets, get_or_pull-gets}
use aegisvm.Blob.{blob_key, ext_for_media_type, put_key, put, get}
use aegisvm.Blob.Reading.{IsHash, ReadsBack, IsAddressed, get-put}
use aegisvm.Kits.{Manifest, json_suffix, list_manifests, load_manifest}
use aegisvm.Kits.Listing.{listed, listed-list_manifests}

-- The paths of the calls, the last first; directories are not noted.
abbrev pub trace_os : Os (List FilePath)
trace_os = record {
  read_dir = λ p s. some (record { name = codes "old"; is_dir = false } ∷ []);
  stat = λ p s. true;
  read_file = λ p s. none;
  remove_all = λ p s. p ∷ s;
  remove = λ p s. p ∷ s;
  mkdir_all = λ p m s. (s, true);
  create = λ p m s. (p ∷ s, true);
  copy = λ p d s. (p ∷ s, true);
  symlink = λ t p s. (p ∷ s, true);
  link = λ a b s. (a ∷ b ∷ s, true);
  rename = λ a b s. (b ∷ s, true);
  write_file = λ p d s. p ∷ s;
}

abbrev pub root : FilePath
root = clean (codes "/cache/img")

abbrev pub AllBelow : List FilePath → Type 0
AllBelow = All (Within root)

old_name : codes "old" ≢ dot_dot
old_name e = cc

pub trace-Kept : Kept trace_os root AllBelow
trace-Kept = record {
  names = λ p s es h.
      let same : record { name = codes "old"; is_dir = false } ∷ [] ≡ es = cc in
      subst (λ xs. All (λ (e : DirItem). e.name ≢ dot_dot) xs) same (old_name, tt);
  remove_all = λ p s w h. (w, h);
  remove = λ p s w h. (w, h);
  mkdir_all = λ p m s w h. h;
  mkdir_parent = λ m s h. h;
  create = λ p m s w h. (w, h);
  copy = λ p d s w h. (w, h);
  symlink = λ t p s w h. (w, h);
  link = λ a b s w v h. (w, (v, h));
}

abbrev shell : Header
shell = record {
  name = codes "bin/../bin/sh";
  typeflag = regular;
  mode = 0o755;
  linkname = [];
  content = codes "elf";
  intact = true;
}

abbrev image_layers : Option (List Layer)
image_layers = some (
    record {
      opens = true;
      gunzips = true;
      headers =
          shell
          ∷ record shell { name = codes "bin/ash"; typeflag = hard; linkname = codes "/bin/sh" }
          ∷ record shell { name = codes "etc/.wh..wh..opq" }
          ∷ record shell { name = codes "../outside" }
          ∷ [];
      ends = true;
    }
    ∷ [])

image_layers-TameLayers : TameLayers image_layers
unfolding clean base_name has_prefix text_of split same_text
image_layers-TameLayers =
    (((tt, λ e. cc), ((refl, λ e. cc), ((tt, λ e. cc), ((tt, λ e. cc), tt)))), tt)

unpack-keeps_example : AllBelow (unpack trace_os root image_layers []).0
unpack-keeps_example =
    unpack-keeps trace_os root AllBelow trace-Kept image_layers [] image_layers-TameLayers tt

-- Files by their paths; a directory is there when its path is.
abbrev FileMap : Type 0
FileMap = List (List ℕ × List ℕ)

unfoldable file_at : List ℕ → FileMap → Option (List ℕ)
file_at p [] = none
file_at p ((q, d) ∷ m) = if same_text q p then some d else file_at p m

abbrev is_some : Option (List ℕ) → Bool
is_some none = false
is_some (some d) = true

abbrev or_empty : Option (List ℕ) → List ℕ
or_empty none = []
or_empty (some d) = d

abbrev map_os : Os FileMap
map_os = record {
  read_dir = λ p s. none;
  stat = λ p s. is_some (file_at (text_of p) s);
  read_file = λ p s. file_at (text_of p) s;
  remove_all = λ p s. s;
  remove = λ p s. s;
  mkdir_all = λ p m s. ((text_of p, []) ∷ s, true);
  create = λ p m s. ((text_of p, []) ∷ s, true);
  copy = λ p d s. ((text_of p, d) ∷ s, true);
  symlink = λ t p s. (s, true);
  link = λ a b s. (s, true);
  rename = λ a b s. ((text_of b, or_empty (file_at (text_of a) s)) ∷ s, true);
  write_file = λ p d s. (text_of p, d) ∷ s;
}

file_at_self : (p d : List ℕ) (m : FileMap) → file_at p ((p, d) ∷ m) ≡ some d
unfolding file_at
file_at_self p d m = rw (same_text_refl p) refl

is_some-cons :
    (p q d : List ℕ) (m : FileMap)
    → is_some (file_at p m) ≡ true
    → is_some (file_at p ((q, d) ∷ m)) ≡ true
unfolding file_at
is_some-cons p q d m h = elim (Bool-cases (same_text q p)) [ inl t ↦ rw t refl | inr t ↦ rw t h ]

abbrev map-KeepsFiles : KeepsFiles map_os
map-KeepsFiles = record {
  renames = λ a b s h. ap is_some (file_at_self (text_of b) _ s);
  writes = λ p q d s h. is_some-cons (text_of p) (text_of q) d s h;
}

abbrev list_codec : ListCodec
list_codec = record { marshal = λ vs. []; unmarshal = λ d. none }

abbrev images_dir : FilePath
images_dir = clean (codes "/images")

abbrev alpine : Pulled
alpine = record {
  image = record {
    layers = image_layers;
    config_file = some ("linux", "arm64");
    environment = codes "PATH=/bin" ∷ [];
    digest = some (codes "sha256:ab");
  };
  digest = codes "sha256:ab";
}

abbrev empty_cache : CacheState FileMap
empty_cache = record { ref_index = []; disk = [] }

abbrev alpine_dir : FilePath
alpine_dir = clean (codes "/images/sha256_ab")

get_or_pull-alpine :
    (get_or_pull map_os list_codec images_dir (some alpine) (codes "alpine") empty_cache).1
    ≡ got alpine_dir (codes "sha256:ab")
unfolding get_or_pull file_at unpack has_prefix text_of clean split same_text base_name join_name
get_or_pull-alpine = refl

abbrev kept_disk : FileMap
kept_disk = (text_of alpine_dir, []) ∷ []

kept_there : is_some (file_at (text_of alpine_dir) kept_disk) ≡ true
kept_there = ap is_some (file_at_self (text_of alpine_dir) [] [])

abbrev later_calls : List (FileMap × Option Pulled × List ℕ)
later_calls =
    (kept_disk, none, codes "debian")
    ∷ (kept_disk, some alpine, codes "alpine:3")
    ∷ (kept_disk, none, codes "alpine")
    ∷ []

get_or_pull-gets_example :
    let c1 =
      (get_or_pull map_os list_codec images_dir (some alpine) (codes "alpine") empty_cache).0 in
    let c2 : CacheState FileMap = record (gets map_os list_codec images_dir later_calls c1) {
      disk = kept_disk;
    } in
    (map_os.stat alpine_dir c1.disk ≡ true)
    × (get_or_pull map_os list_codec images_dir none (codes "alpine") c2
        ≡ (c2, got alpine_dir (codes "sha256:ab"), []))
get_or_pull-gets_example =
    get_or_pull-gets map_os list_codec images_dir map-KeepsFiles (some alpine) none (codes "alpine")
      empty_cache alpine_dir (codes "sha256:ab") later_calls kept_disk get_or_pull-alpine
      (kept_there, (kept_there, (kept_there, tt))) kept_there

abbrev toy_hash : List ℕ → List ℕ
toy_hash d = (length d % 256) ∷ replicate 31 0

zeros_small : (n : ℕ) → All (λ b. b < 256) (replicate n 0)
zeros_small zero = tt
zeros_small (suc n) = (omega arith, zeros_small n)

toy_hash-IsHash : IsHash toy_hash
toy_hash-IsHash = record { size = λ d. refl; bytes = λ d. (omega arith, zeros_small 31) }

map-ReadsBack : ReadsBack map_os
map-ReadsBack = record {
  copies = λ p m d s h k. file_at_self (text_of p) d _;
  renames = λ a b d s h k. file_at_self (text_of b) _ s ∙ ap (λ o. some (or_empty o)) h;
}

abbrev workspace : FilePath
workspace = clean (codes "/workspace")

empty-IsAddressed : IsAddressed map_os toy_hash workspace map-ReadsBack []
unfolding file_at
empty-IsAddressed contents ext t = (contents, cc, cc)

abbrev picture : List ℕ
picture = 137 ∷ 80 ∷ []

abbrev picture_key : List ℕ
picture_key = blob_key map_os toy_hash workspace picture (codes ".png")

put-picture :
    (put map_os toy_hash workspace (some (codes ".tmp-1")) picture "image/png" []).1
    ≡ put_key picture_key
unfolding put ext_for_media_type file_at ◌=s◌
put-picture = refl

get-put_example :
    (d : List ℕ) × (get map_os toy_hash workspace picture_key
        (put map_os toy_hash workspace (some (codes ".tmp-1")) picture "image/png" []).0
      ≡ some d)
    × (toy_hash d ≡ toy_hash picture)
get-put_example =
    get-put map_os toy_hash workspace map-ReadsBack (some (codes ".tmp-1")) picture picture_key
      "image/png" [] toy_hash-IsHash empty-IsAddressed put-picture

abbrev kit_item : DirItem
kit_item = record { name = codes "agent.json"; is_dir = false }

-- Every directory lists one file, and it can be read.
abbrev kits_os : Os (List ℕ)
kits_os = record {
  read_dir = λ p s. some (kit_item ∷ []);
  stat = λ p s. true;
  read_file = λ p s. some s;
  remove_all = λ p s. s;
  remove = λ p s. s;
  mkdir_all = λ p m s. (s, true);
  create = λ p m s. (s, true);
  copy = λ p d s. (s, true);
  symlink = λ t p s. (s, true);
  link = λ a b s. (s, true);
  rename = λ a b s. (s, true);
  write_file = λ p d s. s;
}

abbrev parse_kit : List ℕ → Option Manifest
parse_kit version = some (record {
  name = codes "agent";
  version = version;
  description = [];
  usage = [];
  instance_daemons = [];
  config = [];
  image_base = codes "alpine";
  image_inject = codes "aegis-agent" ∷ [];
  default_command = [];
  default_capabilities = none;
})

json_file : has_suffix json_suffix (codes "agent.json") ≡ true
unfolding has_suffix same_text
json_file = refl

listed-list_manifests_example :
    listed kits_os parse_kit
      (codes "1")
      (trim_suffix json_suffix (codes "agent.json"))
      (list_manifests kits_os parse_kit (root ∷ workspace ∷ []) (codes "1"))
    ≡ load_manifest kits_os parse_kit
        (root ∷ workspace ∷ [])
        (trim_suffix json_suffix (codes "agent.json"))
        (codes "1")
listed-list_manifests_example =
    listed-list_manifests kits_os parse_kit (codes "1") (λ a b file c f r. f)
      (root ∷ workspace ∷ []) workspace (codes "agent.json")
      (kit_item ∷ [], refl, (kit_item, inl refl, refl, refl)) json_file
