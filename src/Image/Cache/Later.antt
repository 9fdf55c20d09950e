-- ===== src/Image/Cache/Later.antt =====
-- The cache of Image/Cache over the calls of one run of the daemon.
use aegisvm.Base.{
  ℕ, ◌≡◌, refl, sym, ◌∙◌, inl, inr, subst, List, [], ◌∷◌, Option, none, some, true, false, if_cases,
  Bool-cases, same_text, same_text_eq, same_text_cong, All, arith,
}
use aegisvm.Files.Paths.{FilePath}
use aegisvm.Files.Os.{Os}
use aegisvm.Image.Pull.{Pulled}
use aegisvm.Image.Cache.{
  RefIndex, find_ref, put_ref, drop_ref, ListCodec, CacheState, PullError, Got, got, Stage,
  cached_dir, fill_cache, filled, fetch, is_empty, not_indexed, look_up, get_or_pull,
}
use aegisvm.Image.Cache.Hits.{KeepsFiles, get_or_pull-IsCached, IsCached-get_or_pull}

module _ (r ref : List ℕ) (n : same_text r ref ≡ false) where
  -- An entry of the other reference is not found.
  alike : (q : List ℕ) → same_text q r ≡ true → same_text q ref ≡ false
  alike q t = same_text_cong q r ref t ∙ n

  find_ref-put_other :
      (d : List ℕ) (ix : RefIndex) → find_ref ref (put_ref r d ix) ≡ find_ref ref ix
  unfolding find_ref put_ref
  find_ref-put_other d [] = rw n refl
  find_ref-put_other d ((q, e) ∷ ix) = ground (arith, n, alike q, find_ref-put_other d ix)

  find_ref-drop_other : (ix : RefIndex) → find_ref ref (drop_ref r ix) ≡ find_ref ref ix
  unfolding find_ref drop_ref
  find_ref-drop_other [] = refl
  find_ref-drop_other ((q, e) ∷ ix) = ground (arith, n, alike q, find_ref-drop_other ix)

module _ {S : Type 0} (os : Os S) (codec : ListCodec) (cache_dir : FilePath) where
  -- The reference has the digest in the index.
  abbrev Indexed : List ℕ → List ℕ → CacheState S × Got × List Stage → Type 0
  Indexed ref d x = find_ref ref x.0.ref_index ≡ some d

  module _ (r ref d : List ℕ) (n : same_text r ref ≡ false) (pulled : Option Pulled) where
    filled-Indexed :
        (ix : RefIndex) (p : Pulled) (x : S × Option PullError)
        → find_ref ref ix ≡ some d
        → Indexed ref d (filled os codec cache_dir ix p x)
    unfolding filled
    filled-Indexed ix p (s, none) h = h
    filled-Indexed ix p (s, some e) h = h

    fetch-Indexed :
        (o : Option Pulled) (c : CacheState S)
        → find_ref ref c.ref_index ≡ some d
        → Indexed ref d (fetch os codec cache_dir o r c)
    unfolding fetch
    fetch-Indexed none c h = h
    fetch-Indexed (some p) c h =
        let kept = find_ref-put_other r ref n p.digest c.ref_index ∙ h in
        if_cases (Indexed ref d) (os.stat (cached_dir os codec cache_dir p.digest) c.disk) _ _ kept
          (filled-Indexed _ p (fill_cache os codec cache_dir r p c.disk) kept)

    is_empty-found :
        (ix : RefIndex) → find_ref ref ix ≡ some d → is_empty os codec cache_dir ix ≡ false
    unfolding find_ref
    is_empty-found [] h = cc
    is_empty-found (e ∷ ix) h = refl

    not_indexed-Indexed :
        (c : CacheState S)
        → find_ref ref c.ref_index ≡ some d
        → Indexed ref d (not_indexed os codec cache_dir pulled r c)
    unfolding not_indexed
    not_indexed-Indexed c h = rw (is_empty-found c.ref_index h) (fetch-Indexed pulled c h)

    look_up-Indexed :
        (c : CacheState S) (o : Option (List ℕ))
        → find_ref ref c.ref_index ≡ some d
        → Indexed ref d (look_up os codec cache_dir pulled r c o)
    unfolding look_up
    look_up-Indexed c none h = not_indexed-Indexed c h
    look_up-Indexed c (some e) h =
        if_cases (Indexed ref d) (os.stat (cached_dir os codec cache_dir e) c.disk) _ _ h
          (not_indexed-Indexed _ (find_ref-drop_other r ref n c.ref_index ∙ h))

  -- Calls for references, each with what the disk is by then and what the network answers.
  unfoldable pub gets : List (S × Option Pulled × List ℕ) → CacheState S → CacheState S
  unfolding get_or_pull
  gets [] c = c
  gets ((s, pulled, r) ∷ calls) c =
      gets calls (get_or_pull os codec cache_dir pulled r (record c { disk = s })).0

  module _ (k : KeepsFiles os) (ref : List ℕ) (dir : FilePath) (d : List ℕ)
      (same : dir ≡ cached_dir os codec cache_dir d) where
    get_or_pull-Indexed :
        (pulled : Option Pulled) (r : List ℕ) (c : CacheState S)
        → os.stat dir c.disk ≡ true
        → find_ref ref c.ref_index ≡ some d
        → Indexed ref d (get_or_pull os codec cache_dir pulled r c)
    unfolding get_or_pull
    get_or_pull-Indexed pulled r c t h = elim (Bool-cases (same_text r ref)) [
      | inl e ↦
          subst (λ q. Indexed ref d (get_or_pull os codec cache_dir pulled q c))
            (sym (same_text_eq r ref e))
            (rw (IsCached-get_or_pull os codec cache_dir k pulled ref c dir d (h, same, t)) h)
      | inr n ↦ look_up-Indexed r ref d n pulled c (find_ref r c.ref_index) h
    ]

    gets-Indexed :
        (calls : List (S × Option Pulled × List ℕ)) (c : CacheState S)
        → All (λ (x : S × Option Pulled × List ℕ). os.stat dir x.0 ≡ true) calls
        → find_ref ref c.ref_index ≡ some d
        → find_ref ref (gets calls c).ref_index ≡ some d
    unfolding gets
    gets-Indexed [] c a h = h
    gets-Indexed ((s, pulled, r) ∷ calls) c a h =
        gets-Indexed calls _ a.1 (get_or_pull-Indexed pulled r (record c { disk = s }) a.0 h)

  -- A cached image is found again without the network until the daemon ends: on a file system where a
  -- directory is there once another was renamed to it, and writing a file takes nothing away, when
  -- `GetOrPull` succeeds then the directory it returns is there; and after any further calls on the same
  -- index, for any references, whatever the network answers and whatever the disk is by then, if that
  -- directory is there at each of them and still is, a call for the same reference returns the same
  -- directory and digest, whatever the network answers, tells no progress and changes nothing.
  pub get_or_pull-gets :
      (k : KeepsFiles os) (pulled again : Option Pulled) (ref : List ℕ) (c : CacheState S)
      (dir : FilePath) (d : List ℕ) (calls : List (S × Option Pulled × List ℕ)) (later : S)
      → (get_or_pull os codec cache_dir pulled ref c).1 ≡ got dir d
      → All (λ (x : S × Option Pulled × List ℕ). os.stat dir x.0 ≡ true) calls
      → os.stat dir later ≡ true
      → let c1 = (get_or_pull os codec cache_dir pulled ref c).0 in
        let c2 : CacheState S = record (gets calls c1) { disk = later } in
        (os.stat dir c1.disk ≡ true)
        × (get_or_pull os codec cache_dir again ref c2 ≡ (c2, got dir d, []))
  get_or_pull-gets k pulled again ref c dir d calls later h a u =
      let (i, e, t) = get_or_pull-IsCached os codec cache_dir k pulled ref c dir d h in
      (
        t,
        IsCached-get_or_pull os codec cache_dir k again ref _ dir d
            (gets-Indexed k ref dir d e calls _ a i, e, u),
      )
