-- ===== src/Blob.antt =====
-- internal/blob/blob.go: images of messages, stored by their SHA-256 in the workspace of an instance.
-- The hash is a parameter; bytes are numbers.
pub mod Reading
use aegisvm.Base.{
  ℕ, zero, suc, ◌+◌, ◌-◌, ◌*◌, ◌/◌, ◌%◌, List, [], ◌∷◌, ◌++◌, Option, none, some, Bool, true, false,
  ◌&&◌, ◌||◌, leb, ltb, ◌==◌, if◌then◌else◌, String, ◌=s◌, codes, length, same_text,
}
use aegisvm.Files.Paths.{FilePath, join_name, join_text}
use aegisvm.Files.Os.{Os}

abbrev pub max_image_bytes : ℕ
max_image_bytes = 10485760

abbrev pub max_images_per_message : ℕ
max_images_per_message = 4

-- `extForMediaType`; `none` is the empty extension.
unfoldable pub ext_for_media_type : String → Option (List ℕ)
ext_for_media_type m =
    if m =s "image/png"
    then some (codes ".png")
    else if m =s "image/jpeg"
    then some (codes ".jpg")
    else if m =s "image/gif"
    then some (codes ".gif")
    else if m =s "image/webp"
    then some (codes ".webp")
    else none

abbrev pub hex_digit : ℕ → ℕ
hex_digit n = if ltb n 10 then b'0' + n else b'a' + (n - 10)

-- `hex.EncodeToString`
unfoldable pub hex : List ℕ → List ℕ
hex [] = []
hex (b ∷ bs) = hex_digit (b / 16) ∷ hex_digit (b % 16) ∷ hex bs

abbrev pub is_hex : ℕ → Bool
is_hex c = (leb b'a' c && leb c b'f') || (leb b'0' c && leb c b'9')

unfoldable pub known_extension : List ℕ → Bool
known_extension t =
    same_text t (codes ".png")
    || same_text t (codes ".jpg")
    || same_text t (codes ".gif")
    || same_text t (codes ".webp")

unfoldable pub valid_from : ℕ → List ℕ → Bool
unfolding known_extension
valid_from zero t = known_extension t
valid_from (suc n) [] = false
valid_from (suc n) (c ∷ t) = let rest = valid_from n t in if is_hex c then rest else false

-- `validBlobKey`
abbrev pub valid_blob_key : List ℕ → Bool
valid_blob_key t = valid_from 64 t

pub data PutError : Type 0 where
  too_large unsupported mkdir_failed temp_failed write_failed rename_failed : PutError

-- The key, or the error.
pub data PutResult : Type 0 where
  put_key : List ℕ → PutResult
  put_error : PutError → PutResult

-- `WorkspaceBlobStore` is its root; `sha256` is the hash, and the name of a temporary file is what
-- `os.CreateTemp` answers, if it does.
module _ {S : Type 0} (os : Os S) (sha256 : List ℕ → List ℕ) (root : FilePath) where
  abbrev pub blobs_dir : FilePath
  blobs_dir = join_text root (codes ".aegis/blobs")

  abbrev pub blob_key : List ℕ → List ℕ → List ℕ
  blob_key contents ext = hex (sha256 contents) ++ ext

  unfoldable pub rename_temp : FilePath → FilePath → List ℕ → S × Bool → S × PutResult
  rename_temp tmp final key (s, ok) =
      if ok then (s, put_key key) else (os.remove tmp s, put_error rename_failed)

  unfoldable pub written_temp : FilePath → FilePath → List ℕ → S × Bool → S × PutResult
  unfolding rename_temp
  written_temp tmp final key (s, ok) =
      if ok
      then rename_temp tmp final key (os.rename tmp final s)
      else (os.remove tmp s, put_error write_failed)

  unfoldable pub write_temp :
      Option (List ℕ) → FilePath → List ℕ → List ℕ → S × Bool → S × PutResult
  unfolding written_temp
  write_temp none final key contents (s, ok) =
      if ok then (s, put_error temp_failed) else (s, put_error mkdir_failed)
  write_temp (some tmp) final key contents (s, ok) =
      let path = join_name blobs_dir tmp in
      let (s1, created) = os.create path 0o600 s in
      if ok
      then if created
        then written_temp path final key (os.copy path contents s1)
        else (s1, put_error temp_failed)
      else (s, put_error mkdir_failed)

  unfoldable pub put_supported : Option (List ℕ) → List ℕ → Option (List ℕ) → S → S × PutResult
  unfolding write_temp
  put_supported temp contents none s = (s, put_error unsupported)
  put_supported temp contents (some ext) s =
      let key = blob_key contents ext in
      let final = join_text blobs_dir key in
      if os.stat final s
      then (s, put_key key)
      else write_temp temp final key contents (os.mkdir_all blobs_dir 0o755 s)

  -- `Put`
  unfoldable pub put : Option (List ℕ) → List ℕ → String → S → S × PutResult
  unfolding put_supported
  put temp contents media_type s =
      if ltb max_image_bytes (length contents)
      then (s, put_error too_large)
      else put_supported temp contents (ext_for_media_type media_type) s

  -- `Get`
  unfoldable pub get : List ℕ → S → Option (List ℕ)
  get key s = if valid_blob_key key then os.read_file (join_text blobs_dir key) s else none
