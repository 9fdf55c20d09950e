-- ===== src/Api/Workspace/Inside.antt =====
-- That the handlers of Api/Workspace keep to the workspace.
use aegisvm.Base.{
  ℕ, ◌≡◌, refl, sym, ap, ◌∙◌, inl, inr, subst, List, [], Option, none, some, Bool, true, false, not,
  ltb, ◌=s◌, if_cases, if_elim, length, arith,
}
use aegisvm.Files.Paths.{FilePath, clean, join, text_of, has_prefix, dot_dot, directory}
use aegisvm.Files.Paths.Below.{Within, clean-AllPlain, join-Within, directory-Within}
use aegisvm.Files.Os.{Os}
use aegisvm.Lifecycle.Types.{Instance}
use aegisvm.Api.Workspace.{
  Links, FileReply, file, file_error, validate_workspace_path, stays_in, max_workspace_file_size,
  served, read_known, read_resolved, read_in, workspace_of, read_found, handle_workspace_read,
  write_whole, write_resolved, write_made, write_body, handle_workspace_write,
}

valid-plain :
    (t : List ℕ) → validate_workspace_path t ≡ true → has_prefix dot_dot (text_of (clean t)) ≡ false
unfolding validate_workspace_path
valid-plain t h = ground arith

pub valid-Within :
    (ws : FilePath) (t : List ℕ) → validate_workspace_path t ≡ true → Within ws (join ws (clean t))
valid-Within ws t h = join-Within ws (clean t) (clean-AllPlain t (valid-plain t h))

module _ {S : Type 0} (os : Os S) (links : Links S) where
  -- The contents are those of a file at or below the workspace, not a directory and not too large, of
  -- which the directory's resolved path begins with that of the workspace.
  abbrev pub ReadsInside : FilePath → S → List ℕ → Type 0
  ReadsInside ws s contents =
      (p : FilePath) × Within ws p
      × (os.read_file p s ≡ some contents)
      × ((q : FilePath) × (links.eval_symlinks (directory p) s ≡ some q)
          × (stays_in os links ws q s ≡ true))

  -- A reply with a file has read it inside.
  unfoldable Serves : FilePath → S → FileReply → Type 0
  Serves ws s reply = (contents : List ℕ) → reply ≡ file contents → ReadsInside ws s contents

  error-Serves : (ws : FilePath) (s : S) (n : ℕ) → Serves ws s (file_error n)
  unfolding Serves
  error-Serves ws s n contents h = (ws, (refl, ([], refl)), cc, (ws, cc, cc))

  served-Serves :
      (ws full q : FilePath) (s : S) (o : Option (List ℕ))
      → Within ws full
      → os.read_file full s ≡ o
      → links.eval_symlinks (directory full) s ≡ some q
      → stays_in os links ws q s ≡ true
      → Serves ws s (served os links o)
  unfolding Serves
  served-Serves ws full q s none w h e t = error-Serves ws s 500
  served-Serves ws full q s (some c) w h e t =
      λ contents g. let same : c ≡ contents = cc in (full, w, h ∙ ap some same, (q, e, t))

  read_known-Serves :
      (ws full q : FilePath) (s : S) (o : Option (Bool × ℕ))
      → Within ws full
      → links.eval_symlinks (directory full) s ≡ some q
      → stays_in os links ws q s ≡ true
      → Serves ws s (read_known os links full s o)
  unfolding Serves
  read_known-Serves ws full q s none w e t = error-Serves ws s 404
  read_known-Serves ws full q s (some (d, size)) w e t =
      if_cases (Serves ws s) d _ _ (error-Serves ws s 400) (
        if_cases (Serves ws s) (ltb max_workspace_file_size size) _ _ (error-Serves ws s 413)
          (served-Serves ws full q s (os.read_file full s) w refl e t))

  read_resolved-Serves :
      (ws full : FilePath) (s : S) (o : Option FilePath)
      → Within ws full
      → links.eval_symlinks (directory full) s ≡ o
      → Serves ws s (read_resolved os links ws full s o)
  read_resolved-Serves ws full s none w e = error-Serves ws s 404
  read_resolved-Serves ws full s (some q) w e =
      if_elim (Serves ws s) (stays_in os links ws q s) _ _
        (λ t. read_known-Serves ws full q s (links.info full s) w e t) (λ t. error-Serves ws s 403)

  read_found-Serves :
      (path : List ℕ) (s : S) (i : Instance)
      → validate_workspace_path path ≡ true
      → Serves (workspace_of os links i) s (read_found os links path s (some i))
  unfolding read_in
  read_found-Serves path s i v =
      let ws = workspace_of os links i in
      if_cases (Serves ws s) (i.spec.workspace_path =s "") _ _ (error-Serves ws s 404)
        (read_resolved-Serves ws (join ws (clean path)) s _ (valid-Within ws path v) refl)

  -- A file is only read inside the workspace: when the handler answers with contents, they are those of
  -- a file whose path is, element by element, at or below the path of the workspace of the instance
  -- that was found, and the resolved path of its directory begins with the resolved path of the
  -- workspace.
  pub handle_workspace_read-Within :
      (i : Instance) (path : List ℕ) (s : S) (contents : List ℕ)
      → handle_workspace_read os links (some i) path s ≡ file contents
      → ReadsInside (workspace_of os links i) s contents
  unfolding handle_workspace_read Serves
  handle_workspace_read-Within i path s =
      let ws = workspace_of os links i in
      if_elim (Serves ws s) (validate_workspace_path path) _ _ (λ v. read_found-Serves path s i v)
        (λ v. error-Serves ws s 400)

  -- The path is at or below the workspace, and its directory's resolved path begins with that of the
  -- workspace.
  abbrev pub MayWrite : FilePath → FilePath → S → Type 0
  MayWrite ws p s =
      Within ws p
      × ((q : FilePath) × (links.eval_symlinks (directory p) s ≡ some q)
          × (stays_in os links ws q s ≡ true))

  -- What is kept where directories are made at or below the workspace, or its parent is, and where
  -- files are made, and written to, at paths that pass both tests when they are made.
  pub record KeptInside (ws : FilePath) (P : S → Type 0) : Type 0 where
    pub mkdir_all : (p : FilePath) (m : ℕ) (s : S) → Within ws p → P s → P (os.mkdir_all p m s).0
    pub mkdir_parent : (m : ℕ) (s : S) → P s → P (os.mkdir_all (directory ws) m s).0
    pub create : (p : FilePath) (m : ℕ) (s : S) → MayWrite ws p s → P s → P (os.create p m s).0
    pub copy :
        (p : FilePath) (m : ℕ) (contents : List ℕ) (s : S)
        → MayWrite ws p s
        → P (os.create p m s).0
        → P (os.copy p contents (os.create p m s).0).0

  module _ (ws : FilePath) (P : S → Type 0) (k : KeptInside ws P) where
    abbrev Keeps : S × FileReply → Type 0
    Keeps r = P r.0

    write_whole-keeps :
        (full : FilePath) (contents : List ℕ) (r : S × Bool)
        → P r.0
        → P (os.copy full contents r.0).0
        → P (write_whole os links full contents r).0
    unfolding write_whole
    write_whole-keeps full contents (s, ok) p c =
        if_cases Keeps ok _ _ (if_cases Keeps (os.copy full contents s).1 _ _ c c) p

    write_resolved-keeps :
        (full : FilePath) (contents : List ℕ) (s : S) (o : Option FilePath)
        → Within ws full
        → links.eval_symlinks (directory full) s ≡ o
        → P s
        → P (write_resolved os links ws full contents s o).0
    write_resolved-keeps full contents s none w e p = p
    write_resolved-keeps full contents s (some q) w e p =
        if_elim Keeps (stays_in os links ws q s) _ _
          (λ t.
            let may : MayWrite ws full s = (w, (q, e, t)) in
            let made = k.create full 0o644 s may p in
            write_whole-keeps full contents (os.create full 0o644 s) made
              (k.copy full 0o644 contents s may made))
          (λ t. p)

    write_made-keeps :
        (full : FilePath) (contents : List ℕ) (r : S × Bool)
        → Within ws full
        → P r.0
        → P (write_made os links ws full contents r).0
    unfolding write_made
    write_made-keeps full contents (s, ok) w p =
        if_cases Keeps ok _ _
          (write_resolved-keeps full contents s (links.eval_symlinks (directory full) s) w refl p) p

    parent-keeps :
        (full : FilePath) (s : S)
        → Within ws full
        → P s
        → P (os.mkdir_all (directory full) 0o755 s).0
    parent-keeps full s w p = elim (directory-Within ws full w) [
      | inl below ↦ k.mkdir_all (directory full) 0o755 s below p
      | inr same ↦ subst (λ d. P (os.mkdir_all d 0o755 s).0) (sym same) (k.mkdir_parent 0o755 s p)
    ]

    write_body-keeps :
        (full : FilePath) (body : Option (List ℕ)) (s : S)
        → Within ws full
        → P s
        → P (write_body os links ws full body s).0
    unfolding write_body
    write_body-keeps full none s w p = p
    write_body-keeps full (some contents) s w p =
        if_cases Keeps (not (ltb max_workspace_file_size (length contents))) _ _
          (write_made-keeps full contents (os.mkdir_all (directory full) 0o755 s) w
            (parent-keeps full s w p))
          p

    -- A write keeps to the workspace: what is kept by making directories at paths lexically at or below
    -- the workspace or the one where it lies, and by making and writing a file at such a path of which,
    -- just before it is made, the directory's resolved path begins with that of the workspace, is kept
    -- by the handler on every branch, for an instance with this workspace and any path and body.
    pub handle_workspace_write-keeps :
        (i : Instance) (path : List ℕ) (body : Option (List ℕ)) (s : S)
        → workspace_of os links i ≡ ws
        → P s
        → P (handle_workspace_write os links (some i) path body s).0
    unfolding handle_workspace_write
    handle_workspace_write-keeps i path body s e p =
        if_elim Keeps (validate_workspace_path path) _ _
          (λ v. if_cases Keeps (i.spec.workspace_path =s "") _ _ p (
            subst (λ x. P (write_body os links x (join x (clean path)) body s).0) (sym e)
              (write_body-keeps (join ws (clean path)) body s (valid-Within ws path v) p)))
          (λ v. p)
