-- ===== src/Image/Unpack.antt =====
-- internal/image/unpack.go: the layers of an image written below a directory. What the library of
-- images and the readers of gzip and tar answer is data: a layer may fail to open, and its stream may
-- break off.
pub mod Confined
use aegisvm.Base.{
  ℕ, suc, List, [], ◌∷◌, Option, none, some, Bool, true, false, if◌then◌else◌, same_text, codes,
  drop,
}
use aegisvm.Files.Paths.{
  FilePath, clean, join, join_name, text_of, has_prefix, dot_dot, base_name, directory,
}
use aegisvm.Files.Os.{Os, DirItem}

pub data TypeFlag : Type 0 where
  directory_entry regular symbolic hard other_entry : TypeFlag

-- A `tar.Header` with the bytes behind it, and whether they are read to their end.
pub record Header : Type 0 where
  pub name : List ℕ
  pub typeflag : TypeFlag
  pub mode : ℕ
  pub linkname : List ℕ
  pub content : List ℕ
  pub intact : Bool

pub record Layer : Type 0 where
  -- Whether `Compressed` and `gzip.NewReader` succeed.
  pub opens : Bool
  pub gunzips : Bool
  pub headers : List Header
  -- Whether the stream ends with io.EOF.
  pub ends : Bool

pub data UnpackError : Type 0 where
  compressed_failed gzip_failed tar_failed mkdir_failed : UnpackError
  parent_failed create_failed write_failed symlink_failed hardlink_failed : UnpackError
  get_layers_failed : UnpackError
  layer_failed : ℕ → UnpackError → UnpackError

abbrev pub opaque_name : List ℕ
opaque_name = codes ".wh..wh..opq"

abbrev pub whiteout_prefix : List ℕ
whiteout_prefix = codes ".wh."

module _ {S : Type 0} (os : Os S) where
  -- The rest of an operation, unless the call before it failed.
  unfoldable pub then_do :
      UnpackError → S × Bool → (S → S × Option UnpackError) → S × Option UnpackError
  then_do e (s, ok) rest = if ok then rest s else (s, some e)

  unfoldable pub remove_items : FilePath → List DirItem → S → S
  remove_items dir [] s = s
  remove_items dir (e ∷ es) s = remove_items dir es (os.remove_all (join_name dir e.name) s)

  unfoldable pub clear_directory : FilePath → Option (List DirItem) → S → S
  unfolding remove_items
  clear_directory dir none s = s
  clear_directory dir (some es) s = remove_items dir es s

  unfoldable pub in_parent : FilePath → (S → S × Option UnpackError) → S → S × Option UnpackError
  unfolding then_do
  in_parent target rest s = then_do parent_failed (os.mkdir_all (directory target) 0o755 s) rest

  unfoldable pub write_content : FilePath → Header → S → S × Option UnpackError
  unfolding then_do
  write_content target h s =
      then_do write_failed (os.copy target h.content s)
        (λ s1. if h.intact then (s1, none) else (s1, some write_failed))

  unfoldable pub write_regular : FilePath → Header → S → S × Option UnpackError
  unfolding then_do write_content
  write_regular target h s =
      then_do create_failed (os.create target h.mode s) (write_content target h)

  unfoldable pub write_symlink : FilePath → Header → S → S × Option UnpackError
  unfolding then_do
  write_symlink target h s =
      then_do symlink_failed (os.symlink h.linkname target (os.remove target s)) (λ s1. (s1, none))

  unfoldable pub write_hard_link : FilePath → FilePath → Header → S → S × Option UnpackError
  unfolding then_do
  write_hard_link dest target h s =
      then_do hardlink_failed (os.link (join dest (clean h.linkname)) target (os.remove target s))
        (λ s1. (s1, none))

  -- The switch on the type of an entry.
  unfoldable pub write_entry : FilePath → FilePath → Header → TypeFlag → S → S × Option UnpackError
  unfolding in_parent then_do write_regular write_symlink write_hard_link
  write_entry dest target h directory_entry s =
      then_do mkdir_failed (os.mkdir_all target h.mode s) (λ s1. (s1, none))
  write_entry dest target h regular s = in_parent target (write_regular target h) s
  write_entry dest target h symbolic s = in_parent target (write_symlink target h) s
  write_entry dest target h hard s = in_parent target (write_hard_link dest target h) s
  write_entry dest target h other_entry s = (s, none)

  unfoldable pub unpack_clean : FilePath → FilePath → Header → S → S × Option UnpackError
  unfolding clear_directory write_entry
  unpack_clean dest name h s =
      if has_prefix dot_dot (text_of name)
      then (s, none)
      else if same_text (base_name name) opaque_name
      then (
        clear_directory (join dest (directory name)) (os.read_dir (join dest (directory name)) s) s,
        none,
      )
      else if has_prefix whiteout_prefix (base_name name)
      then (
        os.remove_all (join_name (join dest (directory name)) (drop 4 (base_name name))) s,
        none,
      )
      else write_entry dest (join dest name) h h.typeflag s

  -- The body of the loop over the entries of a layer.
  unfoldable pub unpack_entry : FilePath → Header → S → S × Option UnpackError
  unfolding unpack_clean
  unpack_entry dest h s = unpack_clean dest (clean h.name) h s

  unfoldable pub unless_failed :
      S × Option UnpackError → (S → S × Option UnpackError) → S × Option UnpackError
  unless_failed (s, none) rest = rest s
  unless_failed (s, some e) rest = (s, some e)

  unfoldable pub unpack_entries : FilePath → Bool → List Header → S → S × Option UnpackError
  unfolding unpack_entry unless_failed
  unpack_entries dest ends [] s = if ends then (s, none) else (s, some tar_failed)
  unpack_entries dest ends (h ∷ hs) s =
      unless_failed (unpack_entry dest h s) (λ s1. unpack_entries dest ends hs s1)

  -- `unpackLayer`
  unfoldable pub unpack_layer : FilePath → Layer → S → S × Option UnpackError
  unfolding unpack_entries
  unpack_layer dest l s =
      if l.opens
      then if l.gunzips then unpack_entries dest l.ends l.headers s else (s, some gzip_failed)
      else (s, some compressed_failed)

  abbrev at_layer : ℕ → S × Option UnpackError → S × Option UnpackError
  at_layer i (s, none) = (s, none)
  at_layer i (s, some e) = (s, some (layer_failed i e))

  unfoldable pub unpack_layers : FilePath → ℕ → List Layer → S → S × Option UnpackError
  unfolding unpack_layer unless_failed
  unpack_layers dest i [] s = (s, none)
  unpack_layers dest i (l ∷ ls) s =
      unless_failed (at_layer i (unpack_layer dest l s)) (λ s1. unpack_layers dest (suc i) ls s1)

  -- `Unpack`; no layers is `img.Layers` failing.
  unfoldable pub unpack : FilePath → Option (List Layer) → S → S × Option UnpackError
  unfolding unpack_layers
  unpack dest none s = (s, some get_layers_failed)
  unpack dest (some ls) s = unpack_layers dest 0 ls s
