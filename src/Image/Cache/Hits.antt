-- ===== src/Image/Cache/Hits.antt =====
-- When the cache of Image/Cache answers without the network.
use aegisvm.Base.{
  ℕ, ◌≡◌, refl, sym, ap, ◌∙◌, subst, List, [], ◌∷◌, String, Option, none, some, Bool, true, if_elim,
  if_cases, same_text, same_text_refl,
}
use aegisvm.Files.Paths.{FilePath}
use aegisvm.Files.Os.{Os}
use aegisvm.Image.Unpack.{UnpackError}
use aegisvm.Image.Pull.{Pulled}
use aegisvm.Image.Cache.{
  RefIndex, find_ref, put_ref, ListCodec, CacheState, PullError, Got, got, failed, Stage,
  cached_dir, tmp_dir, write_variables, write_image_env, rename_tmp, after_unpack, unpack_made,
  fill_cache, filled, fetch, after_rebuild, is_empty, not_indexed, look_up, get_or_pull,
  rebuild_index,
}

find_ref-put_ref : (ref d : List ℕ) (ix : RefIndex) → find_ref ref (put_ref ref d ix) ≡ some d
unfolding find_ref put_ref
find_ref-put_ref ref d [] = rw (same_text_refl ref) refl
find_ref-put_ref ref d ((r, e) ∷ ix) =
    if_elim (λ i. find_ref ref i ≡ some d) (same_text r ref) _ _ (λ t. rw (same_text_refl ref) refl)
      (λ t. rw t (find_ref-put_ref ref d ix))

-- What the documentation of the file system promises: a directory is there once another was renamed
-- to it, and writing a file takes nothing away.
pub record KeepsFiles {S : Type 0} (os : Os S) : Type 0 where
  pub renames :
      (a b : FilePath) (s : S) → (os.rename a b s).1 ≡ true → os.stat b (os.rename a b s).0 ≡ true
  pub writes :
      (p q : FilePath) (d : List ℕ) (s : S)
      → os.stat p s ≡ true
      → os.stat p (os.write_file q d s) ≡ true

module _ {S : Type 0} (os : Os S) (codec : ListCodec) (cache_dir : FilePath)
    (k : KeepsFiles os) where
  -- The reference is in the index, with the digest of a directory that is there.
  abbrev pub IsCached : List ℕ → FilePath → List ℕ → CacheState S → Type 0
  IsCached ref dir d c =
      (find_ref ref c.ref_index ≡ some d)
      × (dir ≡ cached_dir os codec cache_dir d)
      × (os.stat dir c.disk ≡ true)

  unfoldable Settled : List ℕ → CacheState S × Got × List Stage → Type 0
  Settled ref r = (dir : FilePath) (d : List ℕ) → r.1 ≡ got dir d → IsCached ref dir d r.0

  Settled-got :
      (ref d : List ℕ) (c : CacheState S) (st : List Stage)
      → find_ref ref c.ref_index ≡ some d
      → os.stat (cached_dir os codec cache_dir d) c.disk ≡ true
      → Settled ref (c, got (cached_dir os codec cache_dir d) d, st)
  unfolding Settled
  Settled-got ref d c st h t dir e g =
      let same_dir : cached_dir os codec cache_dir d ≡ dir = cc in
      let same : d ≡ e = cc in
      (
        h ∙ ap some same,
        sym same_dir ∙ ap (cached_dir os codec cache_dir) same,
        subst (λ p. os.stat p c.disk ≡ true) same_dir t,
      )

  Settled-failed :
      (ref : List ℕ) (c : CacheState S) (e : PullError) (st : List Stage)
      → Settled ref (c, failed e, st)
  unfolding Settled
  Settled-failed ref c e st dir d g = cc

  -- Where the cache is filled, the directory of the digest is there afterwards.
  unfoldable Fills : FilePath → S × Option PullError → Type 0
  Fills dir r = r.1 ≡ none → os.stat dir r.0 ≡ true

  stat-write_variables :
      (config : Option (String × String)) (env : List (List ℕ)) (dir p : FilePath) (s : S)
      → os.stat p s ≡ true
      → os.stat p (write_variables os codec cache_dir dir config env s) ≡ true
  unfolding write_variables
  stat-write_variables none env dir p s h = h
  stat-write_variables (some config) [] dir p s h = h
  stat-write_variables (some config) (v ∷ vs) dir p s h = k.writes p _ _ s h

  rename_tmp-Fills :
      (ref : List ℕ) (p : Pulled) (r : S × Bool)
      → (r.1 ≡ true → os.stat (cached_dir os codec cache_dir p.digest) r.0 ≡ true)
      → Fills (cached_dir os codec cache_dir p.digest) (rename_tmp os codec cache_dir ref p r)
  unfolding rename_tmp Fills write_image_env
  rename_tmp-Fills ref p (s, ok) h =
      let dir = cached_dir os codec cache_dir p.digest in
      if_elim (Fills dir) ok _ _
        (λ t e.
          stat-write_variables p.image.config_file p.image.environment dir dir _
            (k.writes dir _ ref s (h t)))
        (λ t e. cc)

  after_unpack-Fills :
      (ref : List ℕ) (p : Pulled) (r : S × Option UnpackError)
      → Fills (cached_dir os codec cache_dir p.digest) (after_unpack os codec cache_dir ref p r)
  unfolding after_unpack Fills
  after_unpack-Fills ref p (s, some e) = λ g. cc
  after_unpack-Fills ref p (s, none) = rename_tmp-Fills ref p _ (k.renames _ _ s)

  unpack_made-Fills :
      (ref : List ℕ) (p : Pulled) (r : S × Bool)
      → Fills (cached_dir os codec cache_dir p.digest) (unpack_made os codec cache_dir ref p r)
  unfolding unpack_made Fills
  unpack_made-Fills ref p (s, ok) =
      if_elim (Fills (cached_dir os codec cache_dir p.digest)) ok _ _
        (λ t. after_unpack-Fills ref p _) (λ t g. cc)

  fill_cache-Fills :
      (ref : List ℕ) (p : Pulled) (s : S)
      → Fills (cached_dir os codec cache_dir p.digest) (fill_cache os codec cache_dir ref p s)
  unfolding fill_cache
  fill_cache-Fills ref p s =
      let tmp = tmp_dir os codec cache_dir p.digest in
      unpack_made-Fills ref p (os.mkdir_all tmp 0o755 (os.remove_all tmp s))

  filled-Settled :
      (ref : List ℕ) (ix : RefIndex) (p : Pulled) (r : S × Option PullError)
      → find_ref ref ix ≡ some p.digest
      → Fills (cached_dir os codec cache_dir p.digest) r
      → Settled ref (filled os codec cache_dir ix p r)
  unfolding filled Fills
  filled-Settled ref ix p (s, none) h f = Settled-got ref p.digest _ _ h (f refl)
  filled-Settled ref ix p (s, some e) h f = Settled-failed ref _ e _

  fetch-Settled :
      (pulled : Option Pulled) (ref : List ℕ) (c : CacheState S)
      → Settled ref (fetch os codec cache_dir pulled ref c)
  unfolding fetch
  fetch-Settled none ref c = Settled-failed ref c _ _
  fetch-Settled (some p) ref c =
      let dir = cached_dir os codec cache_dir p.digest in
      let indexed = find_ref-put_ref ref p.digest c.ref_index in
      if_elim (Settled ref) (os.stat dir c.disk) _ _
        (λ t. Settled-got ref p.digest _ _ indexed (k.writes dir _ ref c.disk t))
        (λ t. filled-Settled ref _ p _ indexed (fill_cache-Fills ref p c.disk))

  after_rebuild-Settled :
      (pulled : Option Pulled) (ref : List ℕ) (c : CacheState S) (o : Option (List ℕ))
      → find_ref ref c.ref_index ≡ o
      → Settled ref (after_rebuild os codec cache_dir pulled ref c o)
  unfolding after_rebuild
  after_rebuild-Settled pulled ref c none h = fetch-Settled pulled ref c
  after_rebuild-Settled pulled ref c (some d) h =
      if_elim (Settled ref) (os.stat (cached_dir os codec cache_dir d) c.disk) _ _
        (λ t. Settled-got ref d c [] h t) (λ t. fetch-Settled pulled ref c)

  not_indexed-Settled :
      (pulled : Option Pulled) (ref : List ℕ) (c : CacheState S)
      → Settled ref (not_indexed os codec cache_dir pulled ref c)
  unfolding not_indexed
  not_indexed-Settled pulled ref c =
      if_cases (Settled ref) (is_empty os codec cache_dir c.ref_index) _ _
        (after_rebuild-Settled pulled ref (rebuild_index os codec cache_dir c) _ refl)
        (fetch-Settled pulled ref c)

  look_up-Settled :
      (pulled : Option Pulled) (ref : List ℕ) (c : CacheState S) (o : Option (List ℕ))
      → find_ref ref c.ref_index ≡ o
      → Settled ref (look_up os codec cache_dir pulled ref c o)
  unfolding look_up
  look_up-Settled pulled ref c none h = not_indexed-Settled pulled ref c
  look_up-Settled pulled ref c (some d) h =
      if_elim (Settled ref) (os.stat (cached_dir os codec cache_dir d) c.disk) _ _
        (λ t. Settled-got ref d c [] h t) (λ t. not_indexed-Settled pulled ref _)

  pub get_or_pull-IsCached :
      (pulled : Option Pulled) (ref : List ℕ) (c : CacheState S) (dir : FilePath) (d : List ℕ)
      → (get_or_pull os codec cache_dir pulled ref c).1 ≡ got dir d
      → IsCached ref dir d (get_or_pull os codec cache_dir pulled ref c).0
  unfolding get_or_pull Settled
  get_or_pull-IsCached pulled ref c = look_up-Settled pulled ref c (find_ref ref c.ref_index) refl

  pub IsCached-get_or_pull :
      (again : Option Pulled) (ref : List ℕ) (c : CacheState S) (dir : FilePath) (d : List ℕ)
      → IsCached ref dir d c
      → get_or_pull os codec cache_dir again ref c ≡ (c, got dir d, [])
  unfolding get_or_pull look_up
  IsCached-get_or_pull again ref c dir d (h, e, t) = rw (h, sym e, t) refl
