-- ===== src/Image/Unpack/Confined.antt =====
-- Which paths the unpacking of Image/Unpack hands to the file system.
use aegisvm.Base.{
  ℕ, suc, ◌≡◌, ◌≢◌, inl, inr, refl, sym, ap, ◌∙◌, subst, List, [], ◌∷◌, ◌++◌, Option, none, some,
  Bool, true, false, if_cases, if_elim, same_text, All, drop,
}
use aegisvm.Files.Paths.{
  FilePath, dot_dot, has_prefix, clean, join, join_name, text_of, base_name, directory,
}
use aegisvm.Files.Paths.Below.{
  Within, clean-AllPlain, join-Within, join_name-Within, directory-AllPlain, directory-Within,
  drop-has_prefix,
}
use aegisvm.Files.Os.{Os, DirItem}
use aegisvm.Image.Unpack.{
  TypeFlag, directory_entry, regular, symbolic, hard, other_entry, Header, Layer, UnpackError,
  mkdir_failed, create_failed, symlink_failed, hardlink_failed, compressed_failed, gzip_failed,
  tar_failed, write_failed, parent_failed, opaque_name, whiteout_prefix, then_do, remove_items,
  clear_directory, in_parent, write_content, write_regular, write_symlink, write_hard_link,
  write_entry, unpack_clean, unpack_entry, unless_failed, unpack_entries, unpack_layer, at_layer,
  unpack_layers, unpack,
}

-- What the calls keep when they are made at paths at or below `dest`; a directory may also be made
-- where `dest` lies.
pub record Kept {S : Type 0} (os : Os S) (dest : FilePath) (P : S → Type 0) : Type 0 where
  -- No directory lists `..`.
  pub names :
      (p : FilePath) (s : S) (es : List DirItem)
      → os.read_dir p s ≡ some es
      → All (λ e. e.name ≢ dot_dot) es
  pub remove_all : (p : FilePath) (s : S) → Within dest p → P s → P (os.remove_all p s)
  pub remove : (p : FilePath) (s : S) → Within dest p → P s → P (os.remove p s)
  pub mkdir_all : (p : FilePath) (m : ℕ) (s : S) → Within dest p → P s → P (os.mkdir_all p m s).0
  pub mkdir_parent : (m : ℕ) (s : S) → P s → P (os.mkdir_all (directory dest) m s).0
  pub create : (p : FilePath) (m : ℕ) (s : S) → Within dest p → P s → P (os.create p m s).0
  pub copy : (p : FilePath) (d : List ℕ) (s : S) → Within dest p → P s → P (os.copy p d s).0
  pub symlink : (t : List ℕ) (p : FilePath) (s : S) → Within dest p → P s → P (os.symlink t p s).0
  pub link : (a b : FilePath) (s : S) → Within dest a → Within dest b → P s → P (os.link a b s).0

-- A hard link is to a name that does not go up.
abbrev pub LinksInside : TypeFlag → List ℕ → Type 0
LinksInside hard linkname = has_prefix dot_dot (text_of (clean linkname)) ≡ false
LinksInside directory_entry linkname = Unit
LinksInside regular linkname = Unit
LinksInside symbolic linkname = Unit
LinksInside other_entry linkname = Unit

-- Nor is a whiteout for `..`.
abbrev pub IsTame : Header → Type 0
IsTame h =
    LinksInside h.typeflag h.linkname × (base_name (clean h.name) ≢ whiteout_prefix ++ dot_dot)

abbrev pub TameLayers : Option (List Layer) → Type 0
TameLayers none = Unit
TameLayers (some ls) = All (λ l. All IsTame l.headers) ls

stem-plain :
    (h : Header)
    → base_name (clean h.name) ≢ whiteout_prefix ++ dot_dot
    → has_prefix whiteout_prefix (base_name (clean h.name)) ≡ true
    → drop 4 (base_name (clean h.name)) ≢ dot_dot
stem-plain h n e d = n (
    drop-has_prefix whiteout_prefix (base_name (clean h.name)) e ∙ ap (λ t. whiteout_prefix ++ t) d)

module _ {S : Type 0} (os : Os S) (dest : FilePath) (P : S → Type 0) (k : Kept os dest P) where
  unfoldable Left : S × Option UnpackError → Type 0
  Left x = P x.0

  stays : (s : S) (o : Option UnpackError) → P s → Left (s, o)
  unfolding Left
  stays s o p = p

  then_do-keeps :
      (e : UnpackError) (r : S × Bool) (rest : S → S × Option UnpackError)
      → P r.0
      → ((s : S) → P s → Left (rest s))
      → Left (then_do os e r rest)
  unfolding then_do
  then_do-keeps e (s, ok) rest h f = if_cases Left ok _ _ (f s h) (stays s (some e) h)

  unless_failed-keeps :
      (r : S × Option UnpackError) (rest : S → S × Option UnpackError)
      → Left r
      → ((s : S) → P s → Left (rest s))
      → Left (unless_failed os r rest)
  unfolding unless_failed Left
  unless_failed-keeps (s, none) rest h f = f s h
  unless_failed-keeps (s, some e) rest h f = h

  in_parent-keeps :
      (target : FilePath) (rest : S → S × Option UnpackError) (s : S)
      → Within dest target
      → ((s : S) → P s → Left (rest s))
      → P s
      → Left (in_parent os target rest s)
  unfolding in_parent
  in_parent-keeps target rest s w f h =
      then_do-keeps parent_failed (os.mkdir_all (directory target) 0o755 s) rest
        (elim (directory-Within dest target w) [
          | inl below ↦ k.mkdir_all (directory target) 0o755 s below h
          | inr same ↦
              subst (λ p. P (os.mkdir_all p 0o755 s).0) (sym same) (k.mkdir_parent 0o755 s h)
        ])
        f

  write_content-keeps :
      (target : FilePath) (h : Header) (s : S)
      → Within dest target
      → P s
      → Left (write_content os target h s)
  unfolding write_content
  write_content-keeps target h s w p =
      then_do-keeps write_failed (os.copy target h.content s) _ (k.copy target h.content s w p)
        (λ s1 p1. if_cases Left h.intact _ _ (stays s1 none p1) (stays s1 (some write_failed) p1))

  write_regular-keeps :
      (target : FilePath) (h : Header) (s : S)
      → Within dest target
      → P s
      → Left (write_regular os target h s)
  unfolding write_regular
  write_regular-keeps target h s w p =
      then_do-keeps create_failed (os.create target h.mode s) (write_content os target h)
        (k.create target h.mode s w p) (λ s1 p1. write_content-keeps target h s1 w p1)

  write_symlink-keeps :
      (target : FilePath) (h : Header) (s : S)
      → Within dest target
      → P s
      → Left (write_symlink os target h s)
  unfolding write_symlink
  write_symlink-keeps target h s w p =
      then_do-keeps symlink_failed (os.symlink h.linkname target (os.remove target s)) _
        (k.symlink h.linkname target (os.remove target s) w (k.remove target s w p))
        (λ s1 p1. stays s1 none p1)

  write_hard_link-keeps :
      (target : FilePath) (h : Header) (s : S)
      → Within dest target
      → LinksInside hard h.linkname
      → P s
      → Left (write_hard_link os dest target h s)
  unfolding write_hard_link
  write_hard_link-keeps target h s w l p =
      let old = join dest (clean h.linkname) in
      then_do-keeps hardlink_failed (os.link old target (os.remove target s)) _
        (k.link old target (os.remove target s)
          (join-Within dest (clean h.linkname) (clean-AllPlain h.linkname l)) w
          (k.remove target s w p))
        (λ s1 p1. stays s1 none p1)

  write_entry-keeps :
      (target : FilePath) (h : Header) (t : TypeFlag) (s : S)
      → Within dest target
      → LinksInside t h.linkname
      → P s
      → Left (write_entry os dest target h t s)
  unfolding write_entry
  write_entry-keeps target h directory_entry s w l p =
      then_do-keeps mkdir_failed (os.mkdir_all target h.mode s) _ (k.mkdir_all target h.mode s w p)
        (λ s1 p1. stays s1 none p1)
  write_entry-keeps target h regular s w l p =
      in_parent-keeps target (write_regular os target h) s w
        (λ s1 p1. write_regular-keeps target h s1 w p1) p
  write_entry-keeps target h symbolic s w l p =
      in_parent-keeps target (write_symlink os target h) s w
        (λ s1 p1. write_symlink-keeps target h s1 w p1) p
  write_entry-keeps target h hard s w l p =
      in_parent-keeps target (write_hard_link os dest target h) s w
        (λ s1 p1. write_hard_link-keeps target h s1 w l p1) p
  write_entry-keeps target h other_entry s w l p = stays s none p

  remove_items-keeps :
      (dir : FilePath) (es : List DirItem) (s : S)
      → Within dest dir
      → All (λ e. e.name ≢ dot_dot) es
      → P s
      → P (remove_items os dir es s)
  unfolding remove_items
  remove_items-keeps dir [] s w n p = p
  remove_items-keeps dir (e ∷ es) s w n p =
      remove_items-keeps dir es (os.remove_all (join_name dir e.name) s) w n.1
        (k.remove_all (join_name dir e.name) s (join_name-Within dest dir e.name n.0 w) p)

  clear_directory-keeps :
      (dir : FilePath) (o : Option (List DirItem)) (s : S)
      → Within dest dir
      → os.read_dir dir s ≡ o
      → P s
      → P (clear_directory os dir o s)
  unfolding clear_directory
  clear_directory-keeps dir none s w e p = p
  clear_directory-keeps dir (some es) s w e p = remove_items-keeps dir es s w (k.names dir s es e) p

  unpack_clean-keeps :
      (h : Header) (s : S) → IsTame h → P s → Left (unpack_clean os dest (clean h.name) h s)
  unfolding unpack_clean
  unpack_clean-keeps h s t p =
      let name = clean h.name in
      if_elim Left (has_prefix dot_dot (text_of name)) _ _ (λ e. stays s none p)
        (λ inside.
          let plain = clean-AllPlain h.name inside in
          let dir = join dest (directory name) in
          let below = join-Within dest (directory name) (directory-AllPlain name plain) in
          if_cases Left (same_text (base_name name) opaque_name) _ _
            (stays _ none (clear_directory-keeps dir (os.read_dir dir s) s below refl p))
            (if_elim Left (has_prefix whiteout_prefix (base_name name)) _ _
              (λ e. stays _ none (
                k.remove_all (join_name dir (drop 4 (base_name name))) s
                  (join_name-Within dest dir (drop 4 (base_name name)) (stem-plain h t.1 e) below)
                  p))
              (λ e.
                write_entry-keeps (join dest name) h h.typeflag s (join-Within dest name plain) t.0
                  p)))

  unpack_entries-keeps :
      (ends : Bool) (hs : List Header) (s : S)
      → All IsTame hs
      → P s
      → Left (unpack_entries os dest ends hs s)
  unfolding unpack_entries unpack_entry
  unpack_entries-keeps ends [] s t p =
      if_cases Left ends _ _ (stays s none p) (stays s (some tar_failed) p)
  unpack_entries-keeps ends (h ∷ hs) s t p =
      unless_failed-keeps _ _ (unpack_clean-keeps h s t.0 p)
        (λ s1 p1. unpack_entries-keeps ends hs s1 t.1 p1)

  at_layer-keeps : (i : ℕ) (r : S × Option UnpackError) → Left r → Left (at_layer os i r)
  unfolding Left
  at_layer-keeps i (s, none) p = p
  at_layer-keeps i (s, some e) p = p

  unpack_layers-keeps :
      (i : ℕ) (ls : List Layer) (s : S)
      → All (λ l. All IsTame l.headers) ls
      → P s
      → Left (unpack_layers os dest i ls s)
  unfolding unpack_layers unpack_layer
  unpack_layers-keeps i [] s t p = stays s none p
  unpack_layers-keeps i (l ∷ ls) s t p =
      unless_failed-keeps _ _
        (at_layer-keeps i (unpack_layer os dest l s) (
          if_cases Left l.opens _ _
            (if_cases Left l.gunzips _ _ (unpack_entries-keeps l.ends l.headers s t.0 p)
              (stays s (some gzip_failed) p))
            (stays s (some compressed_failed) p)))
        (λ s1 p1. unpack_layers-keeps (suc i) ls s1 t.1 p1)

  -- An image is unpacked inside its directory: whatever is kept by the calls to the file system at
  -- paths at or below `dest` (and by making the directory where `dest` lies), on a file system that
  -- lists no `..`, is kept by `Unpack` on every branch, where no hard link is to a name that goes up
  -- and no entry is named `.wh...`.
  pub unpack-keeps :
      (layers : Option (List Layer)) (s : S)
      → TameLayers layers
      → P s
      → P (unpack os dest layers s).0
  unfolding unpack Left
  unpack-keeps none s t p = p
  unpack-keeps (some ls) s t p = unpack_layers-keeps 0 ls s t p
