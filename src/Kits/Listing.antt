-- ===== src/Kits/Listing.antt =====
-- The two ways to find a manifest in Kits: by its name, and in the list of all.
use aegisvm.Base.{
  ℕ, ◌≡◌, ◌⊎◌, inl, inr, refl, sym, ap, ap₂, ◌∙◌, subst, List, [], ◌∷◌, ◌++◌, Option, none, some,
  true, false, not, ◌||◌, if◌then◌else◌, if_elim, Option-cases, Bool-cases, same_text, same_text_eq,
  All, All-append, arith,
}
use aegisvm.Files.Paths.{FilePath, join_text, has_suffix, trim_suffix}
use aegisvm.Files.Os.{Os, DirItem}
use aegisvm.Kits.{
  Manifest, json_suffix, read_manifest, first_some, load_manifest, Listed, seen, list_read,
  list_item, list_items, list_read_dir, list_from, list_manifests,
}
use aegisvm.Kits.Seen.{
  trim_suffix-append, In, HasFile, load, read, load-snoc, list_item-seen, list_items-seen,
  list_items-visits,
}

module _ {S : Type 0} (os : Os S) (unmarshal : List ℕ → Option Manifest) (s : S) where
  -- Every pair of the list is what a search of the directories finds.
  abbrev pub Sound : List FilePath → Listed os unmarshal → Type 0
  Sound ds l = All (λ (p : List ℕ × Manifest). load os unmarshal s ds p.0 ≡ some p.1) l

  -- A manifest that some directory lists and that is not seen is not found in these directories.
  abbrev Unfound : List FilePath → Listed os unmarshal → Type 0
  Unfound ds l =
      (b : FilePath) (file : List ℕ)
      → HasFile os unmarshal s b file
      → has_suffix json_suffix file ≡ true
      → seen os unmarshal (trim_suffix json_suffix file) l ≡ false
      → load os unmarshal s ds (trim_suffix json_suffix file) ≡ none

  Sound-snoc :
      (ds : List FilePath) (d : FilePath) (l : Listed os unmarshal)
      → Sound ds l
      → Sound (ds ++ (d ∷ [])) l
  Sound-snoc ds d [] h = tt
  Sound-snoc ds d ((n, m) ∷ l) h = (
    load-snoc os unmarshal s ds d n
        ∙ ap (λ o. first_some os unmarshal o (read os unmarshal s d (n ++ json_suffix))) h.0,
    Sound-snoc ds d l h.1,
  )

  list_read-Sound :
      (ds : List FilePath) (d : FilePath) (n : List ℕ) (o : Option Manifest)
      (l : Listed os unmarshal)
      → Sound (ds ++ (d ∷ [])) l
      → load os unmarshal s ds n ≡ none
      → read os unmarshal s d (n ++ json_suffix) ≡ o
      → Sound (ds ++ (d ∷ [])) (list_read os unmarshal n o l)
  list_read-Sound ds d n none l h u r = h
  list_read-Sound ds d n (some m) l h u r = All-append _ l ((n, m) ∷ []) h (
    load-snoc os unmarshal s ds d n
        ∙ (ap (λ o. first_some os unmarshal o (read os unmarshal s d (n ++ json_suffix))) u ∙ r),
    tt,
  )

  list_item-Sound :
      (ds : List FilePath) (d : FilePath) (e : DirItem) (l : Listed os unmarshal)
      → HasFile os unmarshal s d e.name ⊎ (e.is_dir ≡ true)
      → Unfound ds l
      → Sound (ds ++ (d ∷ [])) l
      → Sound (ds ++ (d ∷ [])) (list_item os unmarshal d e s l)
  unfolding list_item
  list_item-Sound ds d e l (inr dir) u h = rw dir h
  list_item-Sound ds d e l (inl f) u h =
      let n = trim_suffix json_suffix e.name in
      let P : Listed os unmarshal → Type 0 = Sound (ds ++ (d ∷ [])) in
      if_elim P (e.is_dir || not (has_suffix json_suffix e.name)) _ _ (λ t. h)
        (λ t.
          let suffix : has_suffix json_suffix e.name ≡ true = ground arith in
          if_elim P (seen os unmarshal n l) _ _ (λ t2. h)
            (λ t2.
              list_read-Sound ds d n (read os unmarshal s d e.name) l h (u d e.name f suffix t2)
                (ap (read os unmarshal s d) (trim_suffix-append json_suffix e.name suffix))))

  -- The list never loses what it has seen.
  Unfound-list_item :
      (ds : List FilePath) (d : FilePath) (e : DirItem) (l : Listed os unmarshal)
      → Unfound ds l
      → Unfound ds (list_item os unmarshal d e s l)
  Unfound-list_item ds d e l u b file f k t =
      u b file f k
        (ground (arith, list_item-seen os unmarshal s (trim_suffix json_suffix file) d e l))

  list_items-Sound :
      (ds : List FilePath) (d : FilePath) (es : List DirItem) (l : Listed os unmarshal)
      → All (λ e. HasFile os unmarshal s d e.name ⊎ (e.is_dir ≡ true)) es
      → Unfound ds l
      → Sound (ds ++ (d ∷ [])) l
      → Sound (ds ++ (d ∷ [])) (list_items os unmarshal d es s l)
  unfolding list_items
  list_items-Sound ds d [] l f u h = h
  list_items-Sound ds d (e ∷ es) l f u h =
      list_items-Sound ds d es _ f.1 (Unfound-list_item ds d e l u)
        (list_item-Sound ds d e l f.0 u h)

  -- The manifest of a name in the list.
  unfoldable pub listed : List ℕ → Listed os unmarshal → Option Manifest
  listed name [] = none
  listed name ((n, m) ∷ l) = if same_text n name then some m else listed name l

  -- What the documentation of the file system promises: a file of a name that some directory lists,
  -- when it can be read, is listed by its own directory.
  abbrev pub ListsFiles : Type 0
  ListsFiles =
      (a b : FilePath) (file c : List ℕ)
      → HasFile os unmarshal s b file
      → os.read_file (join_text a file) s ≡ some c
      → HasFile os unmarshal s a file

  readable :
      (a : FilePath) (file : List ℕ) (m : Manifest)
      → read os unmarshal s a file ≡ some m
      → (c : List ℕ) × (os.read_file (join_text a file) s ≡ some c)
  unfolding read_manifest
  readable a file m h = elim (Option-cases (os.read_file (join_text a file) s)) [
    | inl e ↦ ([], cc)
    | inr (c, e) ↦ (c, e)
  ]

  listed_files :
      (d : FilePath) (es xs : List DirItem)
      → os.read_dir d s ≡ some es
      → ((e : DirItem) → In e xs → In e es)
      → All (λ e. HasFile os unmarshal s d e.name ⊎ (e.is_dir ≡ true)) xs
  listed_files d es [] h f = tt
  listed_files d es (x ∷ xs) h f = (
    elim (Bool-cases x.is_dir) [
      | inl t ↦ inr t
      | inr t ↦ inl (es, h, (x, f x (inl refl), t, refl))
    ],
    listed_files d es xs h (λ e i. f e (inr i)),
  )

  module _ (law : ListsFiles) where
    HasFile-seen :
        (d : FilePath) (file : List ℕ) (m : Manifest) (l : Listed os unmarshal)
        → HasFile os unmarshal s d file
        → has_suffix json_suffix file ≡ true
        → read os unmarshal s d file ≡ some m
        → seen os unmarshal
            (trim_suffix json_suffix file)
            (list_read_dir os unmarshal d (os.read_dir d s) s l)
          ≡ true
    HasFile-seen d file m l (es, h, (e, i, nd, same)) k r =
        rw (h, sym same)
          (list_items-visits os unmarshal s d es e m l i nd (ap (has_suffix json_suffix) same ∙ k)
            (ap (read os unmarshal s d) same ∙ r))

    list_read_dir-seen :
        (n : List ℕ) (d : FilePath) (o : Option (List DirItem)) (l : Listed os unmarshal)
        → seen os unmarshal n l ≡ true
        → seen os unmarshal n (list_read_dir os unmarshal d o s l) ≡ true
    list_read_dir-seen n d none l h = h
    list_read_dir-seen n d (some es) l h = list_items-seen os unmarshal s n d es l h

    unread :
        (b d : FilePath) (file : List ℕ) (l : Listed os unmarshal) (o : Option Manifest)
        → HasFile os unmarshal s b file
        → has_suffix json_suffix file ≡ true
        → seen os unmarshal
            (trim_suffix json_suffix file)
            (list_read_dir os unmarshal d (os.read_dir d s) s l)
          ≡ false
        → read os unmarshal s d file ≡ o
        → o ≡ none
    unread b d file l none f k t r = refl
    unread b d file l (some m) f k t r =
        let (c, there) = readable d file m r in
        let u = HasFile-seen d file m l (law d b file c f there) k r in cc

    Unfound-list_read_dir :
        (ds : List FilePath) (d : FilePath) (l : Listed os unmarshal)
        → Unfound ds l
        → Unfound (ds ++ (d ∷ [])) (list_read_dir os unmarshal d (os.read_dir d s) s l)
    Unfound-list_read_dir ds d l u b file f k t =
        let n = trim_suffix json_suffix file in
        let before : seen os unmarshal n l ≡ false =
          ground (arith, list_read_dir-seen n d (os.read_dir d s) l) in
        let none_here : read os unmarshal s d (n ++ json_suffix) ≡ none =
          ap (read os unmarshal s d) (trim_suffix-append json_suffix file k)
          ∙ unread b d file l (read os unmarshal s d file) f k t refl in
        load-snoc os unmarshal s ds d n
        ∙ ap₂ (first_some os unmarshal) (u b file f k before) none_here

    list_read_dir-Sound :
        (ds : List FilePath) (d : FilePath) (o : Option (List DirItem)) (l : Listed os unmarshal)
        → os.read_dir d s ≡ o
        → Unfound ds l
        → Sound ds l
        → Sound (ds ++ (d ∷ [])) (list_read_dir os unmarshal d o s l)
    list_read_dir-Sound ds d none l h u k = Sound-snoc ds d l k
    list_read_dir-Sound ds d (some es) l h u k =
        list_items-Sound ds d es l (listed_files d es es h (λ e i. i)) u (Sound-snoc ds d l k)

    nothing : (n : List ℕ) → load os unmarshal s [] n ≡ none
    unfolding load_manifest
    nothing n = refl

    append-snoc :
        (ds ds' : List FilePath) (d : FilePath) → (ds ++ (d ∷ [])) ++ ds' ≡ ds ++ (d ∷ ds')
    append-snoc [] ds' d = refl
    append-snoc (a ∷ ds) ds' d = ap (λ x. a ∷ x) (append-snoc ds ds' d)

    append_nil : (ds : List FilePath) → ds ++ [] ≡ ds
    append_nil [] = refl
    append_nil (a ∷ ds) = ap (λ x. a ∷ x) (append_nil ds)

    list_from-Sound :
        (ds ds' : List FilePath) (l : Listed os unmarshal)
        → Unfound ds l
        → Sound ds l
        → Unfound (ds ++ ds') (list_from os unmarshal ds' s l)
          × Sound (ds ++ ds') (list_from os unmarshal ds' s l)
    unfolding list_from
    list_from-Sound ds [] l u k = rw (append_nil ds) (u, k)
    list_from-Sound ds (d ∷ ds') l u k =
        subst
          (λ x.
            Unfound x (list_from os unmarshal (d ∷ ds') s l)
            × Sound x (list_from os unmarshal (d ∷ ds') s l))
          (append-snoc ds ds' d)
          (list_from-Sound (ds ++ (d ∷ [])) ds' _ (Unfound-list_read_dir ds d l u)
            (list_read_dir-Sound ds d (os.read_dir d s) l refl u k))

    Sound-listed :
        (ds : List FilePath) (n : List ℕ) (l : Listed os unmarshal)
        → Sound ds l
        → (seen os unmarshal n l ≡ false → load os unmarshal s ds n ≡ none)
        → listed n l ≡ load os unmarshal s ds n
    unfolding listed seen
    Sound-listed ds n [] h u = sym (u refl)
    Sound-listed ds n ((i, m) ∷ l) h u =
        if_elim (λ o. o ≡ load os unmarshal s ds n) (same_text i n) _ _
          (λ t. sym h.0 ∙ ap (load os unmarshal s ds) (same_text_eq i n t))
          (λ t. Sound-listed ds n l h.1 (λ v. u (rw t v)))

    -- The two ways to find a kit agree: where a file that can be read under a name that some directory
    -- lists is listed by its own directory, `ListManifests` has for the name of every manifest file that
    -- some directory lists the manifest that `LoadManifest` finds for it, and none if that finds none.
    pub listed-list_manifests :
        (dirs : List FilePath) (b : FilePath) (file : List ℕ)
        → HasFile os unmarshal s b file
        → has_suffix json_suffix file ≡ true
        → listed (trim_suffix json_suffix file) (list_manifests os unmarshal dirs s)
          ≡ load_manifest os unmarshal dirs (trim_suffix json_suffix file) s
    unfolding list_manifests
    listed-list_manifests dirs b file f k =
        let (u, h) = list_from-Sound [] dirs [] (λ b2 file2 f2 k2 t. nothing _) tt in
        Sound-listed dirs (trim_suffix json_suffix file) _ h (λ t. u b file f k t)
