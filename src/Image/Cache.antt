-- ===== src/Image/Cache.antt =====
-- internal/image/cache.go: unpacked images by their digest, with an index from references to digests.
-- References and digests are texts. Calls hold the lock from beginning to end. What `Pull` answers
-- is an argument, and so is the JSON codec of the list of variables.
pub mod Hits
pub mod Later
use aegisvm.Base.{
  ℕ, List, [], ◌∷◌, ◌++◌, reverse, Option, none, some, Bool, true, false, not, ◌&&◌, ◌||◌, ◌==◌,
  if◌then◌else◌, same_text, codes, is_space, cut, String,
}
use aegisvm.Files.Paths.{FilePath, join_name, has_suffix}
use aegisvm.Files.Os.{Os, DirItem}
use aegisvm.Image.Unpack.{UnpackError, unpack}
use aegisvm.Image.Pull.{Image, Pulled}

-- `refIndex`
abbrev pub RefIndex : Type 0
RefIndex = List (List ℕ × List ℕ)

unfoldable pub find_ref : List ℕ → RefIndex → Option (List ℕ)
find_ref ref [] = none
find_ref ref ((r, d) ∷ ix) = if same_text r ref then some d else find_ref ref ix

unfoldable pub put_ref : List ℕ → List ℕ → RefIndex → RefIndex
put_ref ref d [] = (ref, d) ∷ []
put_ref ref d ((r, e) ∷ ix) = if same_text r ref then (ref, d) ∷ ix else (r, e) ∷ put_ref ref d ix

unfoldable pub drop_ref : List ℕ → RefIndex → RefIndex
drop_ref ref [] = []
drop_ref ref ((r, e) ∷ ix) =
    let rest = drop_ref ref ix in if same_text r ref then rest else (r, e) ∷ rest

-- `strings.Replace` of one character by another, once
unfoldable pub replace_once : ℕ → ℕ → List ℕ → List ℕ
replace_once a b [] = []
replace_once a b (c ∷ cs) = if c == a then b ∷ cs else c ∷ replace_once a b cs

-- `digestToDirName`
abbrev pub digest_to_dir_name : List ℕ → List ℕ
digest_to_dir_name d = replace_once b':' b'_' d

unfoldable pub trim_left : List ℕ → List ℕ
unfolding is_space
trim_left [] = []
trim_left (c ∷ cs) = if is_space c then trim_left cs else c ∷ cs

-- `strings.TrimSpace`
unfoldable pub trim_space : List ℕ → List ℕ
unfolding trim_left
trim_space t = reverse (trim_left (reverse (trim_left t)))

abbrev pub tmp_suffix : List ℕ
tmp_suffix = codes ".tmp"

abbrev pub ref_file_name : List ℕ
ref_file_name = codes ".image-ref"

abbrev pub env_file_name : List ℕ
env_file_name = codes ".image-env.json"

-- The JSON codec of a list of texts.
pub record ListCodec : Type 0 where
  pub marshal : List (List ℕ) → List ℕ
  pub unmarshal : List ℕ → Option (List (List ℕ))

-- The parts of `Cache` that change: the index, and the file system.
pub record CacheState (S : Type 0) : Type 0 where
  pub ref_index : RefIndex
  pub disk : S

pub data PullError : Type 0 where
  pull_failed tmp_dir_failed rename_failed : PullError
  unpack_failed : UnpackError → PullError

pub data Got : Type 0 where
  -- The directory and the digest.
  got : FilePath → List ℕ → Got
  failed : PullError → Got

-- What the progress callback is told, if there is one.
pub data Stage : Type 0 where
  resolving downloading ready : Stage

module _ {S : Type 0} (os : Os S) (codec : ListCodec) (cache_dir : FilePath) where
  abbrev pub cached_dir : List ℕ → FilePath
  cached_dir d = join_name cache_dir (digest_to_dir_name d)

  -- `writeRefFile`
  abbrev pub write_ref_file : FilePath → List ℕ → S → S
  write_ref_file dir ref s = os.write_file (join_name dir ref_file_name) ref s

  abbrev index_entry : DirItem → Option (List ℕ) → RefIndex → RefIndex
  index_entry e none ix = ix
  index_entry e (some contents) ix =
      put_ref (trim_space contents) (replace_once b'_' b':' e.name) ix

  unfoldable pub index_items : S → List DirItem → RefIndex → RefIndex
  unfolding put_ref trim_space replace_once has_suffix
  index_items s [] ix = ix
  index_items s (e ∷ es) ix = index_items s es (
      if not e.is_dir || has_suffix tmp_suffix e.name
      then ix
      else index_entry e (os.read_file (join_name (join_name cache_dir e.name) ref_file_name) s) ix)

  abbrev index_listing : S → Option (List DirItem) → RefIndex → RefIndex
  index_listing s none ix = ix
  index_listing s (some es) ix = index_items s es ix

  -- `rebuildIndex`
  unfoldable pub rebuild_index : CacheState S → CacheState S
  unfolding index_items
  rebuild_index c = record c {
    ref_index = index_listing c.disk (os.read_dir cache_dir c.disk) c.ref_index;
  }

  unfoldable pub write_variables : FilePath → Option (String × String) → List (List ℕ) → S → S
  write_variables dir none env s = s
  write_variables dir (some config) [] s = s
  write_variables dir (some config) (v ∷ vs) s =
      os.write_file (join_name dir env_file_name) (codec.marshal (v ∷ vs)) s

  -- `writeImageEnv`
  unfoldable pub write_image_env : Image → FilePath → S → S
  unfolding write_variables
  write_image_env img dir s = write_variables dir img.config_file img.environment s

  -- Where an image is unpacked before it is renamed.
  abbrev pub tmp_dir : List ℕ → FilePath
  tmp_dir d = join_name cache_dir (digest_to_dir_name d ++ tmp_suffix)

  unfoldable pub rename_tmp : List ℕ → Pulled → S × Bool → S × Option PullError
  unfolding write_image_env
  rename_tmp ref p (s, ok) =
      if ok
      then (
        write_image_env p.image (cached_dir p.digest) (write_ref_file (cached_dir p.digest) ref s),
        none,
      )
      else (os.remove_all (tmp_dir p.digest) s, some rename_failed)

  unfoldable pub after_unpack : List ℕ → Pulled → S × Option UnpackError → S × Option PullError
  unfolding rename_tmp
  after_unpack ref p (s, some e) = (os.remove_all (tmp_dir p.digest) s, some (unpack_failed e))
  after_unpack ref p (s, none) =
      rename_tmp ref p (os.rename (tmp_dir p.digest) (cached_dir p.digest) s)

  unfoldable pub unpack_made : List ℕ → Pulled → S × Bool → S × Option PullError
  unfolding after_unpack
  unpack_made ref p (s, ok) =
      if ok
      then after_unpack ref p (unpack os (tmp_dir p.digest) p.image.layers s)
      else (s, some tmp_dir_failed)

  -- The end of `GetOrPull`, for an image that is not there yet.
  unfoldable pub fill_cache : List ℕ → Pulled → S → S × Option PullError
  unfolding unpack_made
  fill_cache ref p s =
      unpack_made ref p (os.mkdir_all (tmp_dir p.digest) 0o755 (os.remove_all (tmp_dir p.digest) s))

  unfoldable pub filled : RefIndex → Pulled → S × Option PullError → CacheState S × Got × List Stage
  filled ix p (s, none) = (
    record { ref_index = ix; disk = s },
    got (cached_dir p.digest) p.digest,
    resolving ∷ downloading ∷ ready ∷ [],
  )
  filled ix p (s, some e) =
      (record { ref_index = ix; disk = s }, failed e, resolving ∷ downloading ∷ [])

  unfoldable pub fetch : Option Pulled → List ℕ → CacheState S → CacheState S × Got × List Stage
  unfolding put_ref fill_cache filled
  fetch none ref c = (c, failed pull_failed, resolving ∷ [])
  fetch (some p) ref c =
      let ix = put_ref ref p.digest c.ref_index in
      if os.stat (cached_dir p.digest) c.disk
      then (
        record { ref_index = ix; disk = write_ref_file (cached_dir p.digest) ref c.disk },
        got (cached_dir p.digest) p.digest,
        resolving ∷ [],
      )
      else filled ix p (fill_cache ref p c.disk)

  unfoldable pub after_rebuild :
      Option Pulled → List ℕ → CacheState S → Option (List ℕ) → CacheState S × Got × List Stage
  unfolding fetch
  after_rebuild pulled ref c none = fetch pulled ref c
  after_rebuild pulled ref c (some d) =
      if os.stat (cached_dir d) c.disk then (c, got (cached_dir d) d, []) else fetch pulled ref c

  abbrev pub is_empty : RefIndex → Bool
  is_empty [] = true
  is_empty (e ∷ ix) = false

  unfoldable pub not_indexed :
      Option Pulled → List ℕ → CacheState S → CacheState S × Got × List Stage
  unfolding rebuild_index after_rebuild fetch find_ref
  not_indexed pulled ref c =
      if is_empty c.ref_index
      then after_rebuild pulled ref (rebuild_index c) (find_ref ref (rebuild_index c).ref_index)
      else fetch pulled ref c

  unfoldable pub look_up :
      Option Pulled → List ℕ → CacheState S → Option (List ℕ) → CacheState S × Got × List Stage
  unfolding not_indexed drop_ref
  look_up pulled ref c none = not_indexed pulled ref c
  look_up pulled ref c (some d) =
      if os.stat (cached_dir d) c.disk
      then (c, got (cached_dir d) d, [])
      else not_indexed pulled ref (record c { ref_index = drop_ref ref c.ref_index })

  -- `GetOrPull`
  unfoldable pub get_or_pull :
      Option Pulled → List ℕ → CacheState S → CacheState S × Got × List Stage
  unfolding look_up find_ref
  get_or_pull pulled ref c = look_up pulled ref c (find_ref ref c.ref_index)

  abbrev add_variable : Option (List ℕ × List ℕ) → RefIndex → RefIndex
  add_variable none env = env
  add_variable (some (k, v)) env = put_ref k v env

  unfoldable variables : List (List ℕ) → RefIndex → RefIndex
  unfolding put_ref cut
  variables [] env = env
  variables (e ∷ es) env = variables es (add_variable (cut b'=' e) env)

  abbrev parsed : Option (List (List ℕ)) → Option RefIndex
  parsed none = none
  parsed (some es) = some (variables es [])

  abbrev parsed_file : Option (List ℕ) → Option RefIndex
  parsed_file none = none
  parsed_file (some data') = parsed (codec.unmarshal data')

  -- `ReadImageEnv`; the map is a list of its entries, and `none` is nil.
  unfoldable pub read_image_env : FilePath → S → Option RefIndex
  unfolding variables
  read_image_env dir s = parsed_file (os.read_file (join_name dir env_file_name) s)
