-- ===== src/Kits/Seen.antt =====
-- What a search of the directories finds, and what the list of all has seen, in Kits.
use aegisvm.Base.{
  ℕ, ◌≡◌, ◌⊎◌, inl, inr, refl, sym, ap, ◌∙◌, subst, List, [], ◌∷◌, ◌++◌, Option, none, some, Bool,
  true, false, not, ◌||◌, if_elim, if_cases, same_text, same_text_refl, same_text_eq, arith,
}
use aegisvm.Files.Paths.{FilePath, has_suffix, trim_suffix}
use aegisvm.Files.Os.{Os, DirItem}
use aegisvm.Kits.{
  Manifest, json_suffix, read_manifest, first_some, load_manifest, Listed, seen, list_read,
  list_item, list_items,
}

pub trim_suffix-append : (p t : List ℕ) → has_suffix p t ≡ true → trim_suffix p t ++ p ≡ t
unfolding has_suffix trim_suffix
trim_suffix-append p [] h = sym (same_text_eq [] p h)
trim_suffix-append p (c ∷ t) h =
    if_elim (λ u. u ++ p ≡ c ∷ t) (same_text (c ∷ t) p) _ _ (λ e. sym (same_text_eq (c ∷ t) p e))
      (λ e.
        let tail : has_suffix p t ≡ true = ground arith in
        ap (λ u. c ∷ u) (trim_suffix-append p t tail))

abbrev pub In : DirItem → List DirItem → Type 0
In e [] = Bool × (true ≡ false)
In e (x ∷ xs) = (x ≡ e) ⊎ In e xs

module _ {S : Type 0} (os : Os S) (unmarshal : List ℕ → Option Manifest) (s : S) where
  -- A file that a directory lists, not itself a directory, by its name.
  abbrev pub HasFile : FilePath → List ℕ → Type 0
  HasFile dir file =
      (es : List DirItem) × (os.read_dir dir s ≡ some es)
      × ((e : DirItem) × In e es × (e.is_dir ≡ false) × (e.name ≡ file))

  abbrev pub load : List FilePath → List ℕ → Option Manifest
  load ds name = load_manifest os unmarshal ds name s

  abbrev pub read : FilePath → List ℕ → Option Manifest
  read d file = read_manifest os unmarshal d file s

  first_some-none : (o : Option Manifest) → first_some os unmarshal o none ≡ o
  first_some-none none = refl
  first_some-none (some m) = refl

  first_some_assoc :
      (a b c : Option Manifest)
      → first_some os unmarshal a (first_some os unmarshal b c)
        ≡ first_some os unmarshal (first_some os unmarshal a b) c
  first_some_assoc none b c = refl
  first_some_assoc (some m) b c = refl

  pub load-snoc :
      (ds : List FilePath) (d : FilePath) (n : List ℕ)
      → load (ds ++ (d ∷ [])) n ≡ first_some os unmarshal (load ds n) (read d (n ++ json_suffix))
  unfolding load_manifest
  load-snoc [] d n = first_some-none (read d (n ++ json_suffix))
  load-snoc (a ∷ ds) d n =
      ap (first_some os unmarshal (read a (n ++ json_suffix))) (load-snoc ds d n)
      ∙ first_some_assoc (read a (n ++ json_suffix)) (load ds n) (read d (n ++ json_suffix))

  seen-append :
      (n : List ℕ) (l k : Listed os unmarshal)
      → seen os unmarshal n l ≡ true
      → seen os unmarshal n (l ++ k) ≡ true
  unfolding seen
  seen-append n [] k h = cc
  seen-append n ((i, m) ∷ l) k h =
      if_elim (λ b. b ≡ true) (same_text i n) _ _ (λ t. refl)
        (λ t. seen-append n l k (ground arith))

  seen-snoc :
      (n : List ℕ) (m : Manifest) (l : Listed os unmarshal)
      → seen os unmarshal n (l ++ ((n, m) ∷ [])) ≡ true
  unfolding seen
  seen-snoc n m [] = rw (same_text_refl n) refl
  seen-snoc n m ((i, m2) ∷ l) = if_cases (λ b. b ≡ true) (same_text i n) _ _ refl (seen-snoc n m l)

  list_read-seen :
      (n i : List ℕ) (o : Option Manifest) (l : Listed os unmarshal)
      → seen os unmarshal n l ≡ true
      → seen os unmarshal n (list_read os unmarshal i o l) ≡ true
  list_read-seen n i none l h = h
  list_read-seen n i (some m) l h = seen-append n l _ h

  pub list_item-seen :
      (n : List ℕ) (d : FilePath) (e : DirItem) (l : Listed os unmarshal)
      → seen os unmarshal n l ≡ true
      → seen os unmarshal n (list_item os unmarshal d e s l) ≡ true
  unfolding list_item
  list_item-seen n d e l h =
      if_cases (λ k. seen os unmarshal n k ≡ true) (e.is_dir || not (has_suffix json_suffix e.name))
        _ _ h
        (if_cases (λ k. seen os unmarshal n k ≡ true) _ _ _ h
          (list_read-seen n _ (read d e.name) l h))

  pub list_items-seen :
      (n : List ℕ) (d : FilePath) (es : List DirItem) (l : Listed os unmarshal)
      → seen os unmarshal n l ≡ true
      → seen os unmarshal n (list_items os unmarshal d es s l) ≡ true
  unfolding list_items
  list_items-seen n d [] l h = h
  list_items-seen n d (e ∷ es) l h = list_items-seen n d es _ (list_item-seen n d e l h)

  -- A manifest that can be read is seen once its file was visited.
  list_item-visits :
      (d : FilePath) (e : DirItem) (m : Manifest) (l : Listed os unmarshal)
      → e.is_dir ≡ false
      → has_suffix json_suffix e.name ≡ true
      → read d e.name ≡ some m
      → seen os unmarshal (trim_suffix json_suffix e.name) (list_item os unmarshal d e s l) ≡ true
  unfolding list_item
  list_item-visits d e m l h k r =
      let n = trim_suffix json_suffix e.name in
      rw (h, k, r)
        (if_elim (λ x. seen os unmarshal n x ≡ true) (seen os unmarshal n l) _ _ (λ t. t)
          (λ t. seen-snoc n m l))

  pub list_items-visits :
      (d : FilePath) (es : List DirItem) (e : DirItem) (m : Manifest) (l : Listed os unmarshal)
      → In e es
      → e.is_dir ≡ false
      → has_suffix json_suffix e.name ≡ true
      → read d e.name ≡ some m
      → seen os unmarshal (trim_suffix json_suffix e.name) (list_items os unmarshal d es s l) ≡ true
  unfolding list_items
  list_items-visits d [] e m l i h k r = cc
  list_items-visits d (x ∷ es) e m l (inl same) h k r = list_items-seen _ d es _ (
      subst
        (λ y.
          seen os unmarshal (trim_suffix json_suffix e.name) (list_item os unmarshal d y s l)
          ≡ true)
        (sym same) (list_item-visits d e m l h k r))
  list_items-visits d (x ∷ es) e m l (inr i) h k r = list_items-visits d es e m _ i h k r
