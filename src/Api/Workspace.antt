-- ===== src/Api/Workspace.antt =====
-- internal/api/server.go: the files of an instance's workspace, the host-side configuration of its kit,
-- and uploads of images. A request is its decoded parameters; the body is none if it cannot be read.
-- Content types and JSON are left out.
pub mod Inside
use aegisvm.Base.{
  ℕ, List, [], ◌∷◌, ◌++◌, Option, none, some, String, Bool, true, false, not, ◌&&◌, ◌||◌, ltb, ◌==◌,
  ◌=s◌, if◌then◌else◌, codes, length, same_text,
}
use aegisvm.Files.Paths.{
  FilePath, clean, join, join_name, join_text, text_of, has_prefix, dot_dot, directory,
}
use aegisvm.Files.Os.{Os, DirItem}
use aegisvm.Lifecycle.Types.{Instance}
use aegisvm.Blob.{PutResult, put_key, put_error, put, max_image_bytes}

abbrev pub max_workspace_file_size : ℕ
max_workspace_file_size = 10485760

-- What the handlers call besides `Os`: `filepath.EvalSymlinks`, `os.Stat` for whether a path is a
-- directory and its size, and `DirEntry.Info` of the entry at a path for its size.
pub record Links (S : Type 0) : Type 0 where
  pub eval_symlinks : FilePath → S → Option FilePath
  pub info : FilePath → S → Option (Bool × ℕ)
  pub entry_info : FilePath → S → Option ℕ

pub record FileEntry : Type 0 where
  pub name : List ℕ
  pub is_dir : Bool
  pub size : ℕ

pub data FileReply : Type 0 where
  listing : List FileEntry → FileReply
  file : List ℕ → FileReply
  stored : FileReply
  uploaded : List ℕ → FileReply
  -- An HTTP status.
  file_error : ℕ → FileReply

abbrev pub starts_absolute : List ℕ → Bool
starts_absolute [] = false
starts_absolute (c ∷ t) = c == b'/'

-- `strings.Contains`
unfoldable pub contains_text : List ℕ → List ℕ → Bool
unfolding has_prefix
contains_text p [] = has_prefix p []
contains_text p (c ∷ t) = has_prefix p (c ∷ t) || contains_text p t

-- `validateWorkspacePath`; true is no error.
unfoldable pub validate_workspace_path : List ℕ → Bool
unfolding contains_text
validate_workspace_path t =
    not (same_text t [])
    && (not (starts_absolute t)
        && (not (has_prefix dot_dot (text_of (clean t)))
            && not (contains_text (b'/' ∷ dot_dot) (text_of (clean t)))))

abbrev text_or_empty : Option FilePath → List ℕ
text_or_empty none = []
text_or_empty (some p) = text_of p

module _ {S : Type 0} (os : Os S) (links : Links S) where
  -- The prefix test on the resolved paths.
  abbrev pub stays_in : FilePath → FilePath → S → Bool
  stays_in ws resolved s = has_prefix (text_or_empty (links.eval_symlinks ws s)) (text_of resolved)

  abbrev within_size : List ℕ → Bool
  within_size contents = not (ltb max_workspace_file_size (length contents))

  abbrev served : Option (List ℕ) → FileReply
  served none = file_error 500
  served (some contents) = file contents

  abbrev read_known : FilePath → S → Option (Bool × ℕ) → FileReply
  read_known full s none = file_error 404
  read_known full s (some (is_dir, size)) =
      if is_dir
      then file_error 400
      else if ltb max_workspace_file_size size
      then file_error 413
      else served (os.read_file full s)

  abbrev read_resolved : FilePath → FilePath → S → Option FilePath → FileReply
  read_resolved ws full s none = file_error 404
  read_resolved ws full s (some resolved) =
      if stays_in ws resolved s then read_known full s (links.info full s) else file_error 403

  unfoldable pub read_in : FilePath → FilePath → S → FileReply
  read_in ws full s = read_resolved ws full s (links.eval_symlinks (directory full) s)

  abbrev pub workspace_of : Instance → FilePath
  workspace_of i = clean (codes i.spec.workspace_path)

  abbrev read_found : List ℕ → S → Option Instance → FileReply
  read_found path s none = file_error 404
  read_found path s (some i) =
      if i.spec.workspace_path =s ""
      then file_error 404
      else read_in (workspace_of i) (join (workspace_of i) (clean path)) s

  -- `handleWorkspaceRead`, given the instance that is found
  unfoldable pub handle_workspace_read : Option Instance → List ℕ → S → FileReply
  unfolding read_in validate_workspace_path
  handle_workspace_read found path s =
      if validate_workspace_path path then read_found path s found else file_error 400

  abbrev written : S × Bool → S × FileReply
  written (s, ok) = if ok then (s, stored) else (s, file_error 500)

  -- `os.WriteFile`
  unfoldable pub write_whole : FilePath → List ℕ → S × Bool → S × FileReply
  write_whole full contents (s, ok) =
      if ok then written (os.copy full contents s) else (s, file_error 500)

  abbrev write_resolved : FilePath → FilePath → List ℕ → S → Option FilePath → S × FileReply
  write_resolved ws full contents s none = (s, file_error 500)
  write_resolved ws full contents s (some resolved) =
      if stays_in ws resolved s
      then write_whole full contents (os.create full 0o644 s)
      else (s, file_error 403)

  unfoldable pub write_made : FilePath → FilePath → List ℕ → S × Bool → S × FileReply
  unfolding write_whole
  write_made ws full contents (s, ok) =
      if ok
      then write_resolved ws full contents s (links.eval_symlinks (directory full) s)
      else (s, file_error 500)

  unfoldable pub write_body : FilePath → FilePath → Option (List ℕ) → S → S × FileReply
  unfolding write_made
  write_body ws full none s = (s, file_error 500)
  write_body ws full (some contents) s =
      if within_size contents
      then write_made ws full contents (os.mkdir_all (directory full) 0o755 s)
      else (s, file_error 413)

  abbrev write_found : List ℕ → Option (List ℕ) → S → Option Instance → S × FileReply
  write_found path body s none = (s, file_error 404)
  write_found path body s (some i) =
      if i.spec.workspace_path =s ""
      then (s, file_error 404)
      else write_body (workspace_of i) (join (workspace_of i) (clean path)) body s

  -- `handleWorkspaceWrite`
  unfoldable pub handle_workspace_write :
      Option Instance → List ℕ → Option (List ℕ) → S → S × FileReply
  unfolding write_body validate_workspace_path
  handle_workspace_write found path body s =
      if validate_workspace_path path then write_found path body s found else (s, file_error 400)

  abbrev entry_of : DirItem → Option ℕ → List FileEntry
  entry_of e none = []
  entry_of e (some size) = record { name = e.name; is_dir = e.is_dir; size = size } ∷ []

  -- The entries of which `Info` succeeds: directories, or the others.
  unfoldable entries_that : Bool → FilePath → S → List DirItem → List FileEntry
  entries_that dirs full s [] = []
  entries_that dirs full s (e ∷ es) =
      let rest = entries_that dirs full s es in
      if (if dirs then e.is_dir else not e.is_dir)
      then entry_of e (links.entry_info (join_name full e.name) s) ++ rest
      else rest

  abbrev listed : FilePath → S → Option (List DirItem) → FileReply
  listed full s none = file_error 404
  listed full s (some es) = listing (entries_that true full s es ++ entries_that false full s es)

  abbrev tree_resolved : FilePath → FilePath → S → Option FilePath → FileReply
  tree_resolved ws full s none = file_error 404
  tree_resolved ws full s (some resolved) =
      if stays_in ws resolved s then listed full s (os.read_dir full s) else file_error 403

  abbrev tree_found : List ℕ → S → Option Instance → FileReply
  tree_found path s none = file_error 404
  tree_found path s (some i) =
      let full = join (workspace_of i) (clean path) in
      if i.spec.workspace_path =s ""
      then file_error 404
      else tree_resolved (workspace_of i) full s (links.eval_symlinks full s)

  -- `handleWorkspaceTree`; no path is ".".
  unfoldable pub handle_workspace_tree : Option Instance → List ℕ → S → FileReply
  unfolding entries_that validate_workspace_path
  handle_workspace_tree found path s =
      if same_text path [] || (same_text path (codes ".") || validate_workspace_path path)
      then tree_found path s found
      else file_error 400

  -- The check on the file's name that the handlers of a kit's configuration share.
  unfoldable pub plain_file_name : List ℕ → Bool
  unfolding contains_text
  plain_file_name t =
      not (same_text t []) && not (contains_text (b'/' ∷ []) t || contains_text dot_dot t)

  -- `kitConfigDir`
  abbrev pub kit_config_dir : FilePath → Instance → FilePath
  kit_config_dir kits i =
      join_text kits
        (if i.spec.handle_alias =s "" then codes i.spec.id else codes i.spec.handle_alias)

  abbrev config_read : Option (List ℕ) → FileReply
  config_read none = file_error 404
  config_read (some contents) = file contents

  abbrev config_found : FilePath → List ℕ → S → Option Instance → FileReply
  config_found kits name s none = file_error 404
  config_found kits name s (some i) =
      config_read (os.read_file (join_text (kit_config_dir kits i) name) s)

  -- `handleKitConfigRead`
  unfoldable pub handle_kit_config_read : FilePath → Option Instance → List ℕ → S → FileReply
  unfolding plain_file_name
  handle_kit_config_read kits found name s =
      if plain_file_name name then config_found kits name s found else file_error 400

  abbrev config_body : FilePath → Option (List ℕ) → List ℕ → S → S × FileReply
  config_body dir none name s = (s, file_error 400)
  config_body dir (some contents) name s =
      if within_size contents
      then write_whole (join_text dir name) contents
          (os.create (join_text dir name) 0o644 (os.mkdir_all dir 0o755 s).0)
      else (s, file_error 413)

  abbrev config_write : FilePath → Option (List ℕ) → List ℕ → S → Option Instance → S × FileReply
  config_write kits body name s none = (s, file_error 404)
  config_write kits body name s (some i) = config_body (kit_config_dir kits i) body name s

  -- `handleKitConfigWrite`
  unfoldable pub handle_kit_config_write :
      FilePath → Option Instance → List ℕ → Option (List ℕ) → S → S × FileReply
  unfolding plain_file_name write_whole
  handle_kit_config_write kits found name body s =
      if plain_file_name name then config_write kits body name s found else (s, file_error 400)

  abbrev put_answer : S × PutResult → S × FileReply
  put_answer (s, put_key key) = (s, uploaded key)
  put_answer (s, put_error e) = (s, file_error 400)

  abbrev upload_body :
      (List ℕ → List ℕ) → Option (List ℕ) → FilePath → String → Option (List ℕ) → S → S × FileReply
  upload_body sha256 temp ws media none s = (s, file_error 500)
  upload_body sha256 temp ws media (some contents) s =
      if ltb max_image_bytes (length contents)
      then (s, file_error 413)
      else put_answer
          (put os sha256 ws temp contents (if media =s "" then "image/png" else media) s)

  abbrev upload_found :
      (List ℕ → List ℕ)
      → Option (List ℕ)
      → String
      → Option (List ℕ)
      → S
      → Option Instance
      → S × FileReply
  upload_found sha256 temp media body s none = (s, file_error 404)
  upload_found sha256 temp media body s (some i) =
      if i.spec.workspace_path =s ""
      then (s, file_error 404)
      else upload_body sha256 temp (workspace_of i) media body s

  -- `handleBlobUpload`
  unfoldable pub handle_blob_upload :
      (List ℕ → List ℕ)
      → Option (List ℕ)
      → Option Instance
      → String
      → Option (List ℕ)
      → S
      → S × FileReply
  unfolding put
  handle_blob_upload sha256 temp found media body s = upload_found sha256 temp media body s found
