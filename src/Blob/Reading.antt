-- ===== src/Blob/Reading.antt =====
-- Reading back what Blob stores.
use aegisvm.Base.{
  ℕ, suc, ◌+◌, ◌/◌, ◌%◌, ◌<◌, ◌≡◌, refl, sym, ap, ◌∙◌, subst, List, [], ◌∷◌, ◌++◌, Option, none,
  some, Bool, true, ltb, if_elim, String, length, All, arith, same_text, codes, if_cases, ◌=s◌,
}
use aegisvm.Files.Paths.{FilePath, join_name, join_text}
use aegisvm.Files.Os.{Os}
use aegisvm.Blob.{
  ext_for_media_type, hex_digit, hex, is_hex, known_extension, valid_from, valid_blob_key,
  PutResult, put_key, put_error, blobs_dir, blob_key, rename_temp, written_temp, write_temp,
  put_supported, put, get, max_image_bytes, PutError, rename_failed, write_failed, unsupported,
  too_large, temp_failed, mkdir_failed,
}

-- What the documentation of the hash promises: 32 bytes.
pub record IsHash (sha256 : List ℕ → List ℕ) : Type 0 where
  pub size : (d : List ℕ) → length (sha256 d) ≡ 32
  pub bytes : (d : List ℕ) → All (λ b. b < 256) (sha256 d)

-- What that of the file system promises: a file holds what was copied to it when it was created, and
-- keeps it under a new name.
pub record ReadsBack {S : Type 0} (os : Os S) : Type 0 where
  pub copies :
      (p : FilePath) (m : ℕ) (d : List ℕ) (s : S)
      → (os.create p m s).1 ≡ true
      → (os.copy p d (os.create p m s).0).1 ≡ true
      → os.read_file p (os.copy p d (os.create p m s).0).0 ≡ some d
  pub renames :
      (a b : FilePath) (d : List ℕ) (s : S)
      → os.read_file a s ≡ some d
      → (os.rename a b s).1 ≡ true
      → os.read_file b (os.rename a b s).0 ≡ some d

hex_digit-hex : (n : ℕ) → n < 16 → is_hex (hex_digit n) ≡ true
hex_digit-hex n h = ground arith

halves : (b : ℕ) → b < 256 → (b / 16 < 16) × (b % 16 < 16)
halves b h = (omega arith, omega arith)

valid_from-hex :
    (bs t : List ℕ)
    → All (λ b. b < 256) bs
    → valid_from (length bs + length bs) (hex bs ++ t) ≡ known_extension t
unfolding valid_from hex
valid_from-hex [] t h = refl
valid_from-hex (b ∷ bs) t h =
    let n = length bs in
    let twice : suc n + suc n ≡ suc (suc (n + n)) = omega arith in
    subst (λ k. valid_from k (hex (b ∷ bs) ++ t) ≡ known_extension t) (sym twice)
      (rw (hex_digit-hex (b / 16) (halves b h.0).0, hex_digit-hex (b % 16) (halves b h.0).1)
        (valid_from-hex bs t h.1))

same_known :
    (e ext : List ℕ) → known_extension e ≡ true → some e ≡ some ext → known_extension ext ≡ true
same_known e ext h g = let same : e ≡ ext = cc in subst (λ t. known_extension t ≡ true) same h

ext-known :
    (m : String) (ext : List ℕ) → ext_for_media_type m ≡ some ext → known_extension ext ≡ true
unfolding ext_for_media_type known_extension same_text
ext-known m ext =
    let P : Option (List ℕ) → Type 0 = λ o. o ≡ some ext → known_extension ext ≡ true in
    if_cases P (m =s "image/png") _ _ (same_known (codes ".png") ext refl) (
      if_cases P (m =s "image/jpeg") _ _ (same_known (codes ".jpg") ext refl) (
        if_cases P (m =s "image/gif") _ _ (same_known (codes ".gif") ext refl)
          (if_cases P (m =s "image/webp") _ _ (same_known (codes ".webp") ext refl) (λ h. cc))))

module _ {S : Type 0} (os : Os S) (sha256 : List ℕ → List ℕ) (root : FilePath) where
  -- If there is a file under a key, it holds bytes with the hash of `contents`.
  abbrev pub HoldsHash : List ℕ → List ℕ → S → Type 0
  HoldsHash contents key s =
      (d : List ℕ) × (os.read_file (join_text (blobs_dir os sha256 root) key) s ≡ some d)
      × (sha256 d ≡ sha256 contents)

  blob_key-valid :
      (v : IsHash sha256) (contents ext : List ℕ)
      → known_extension ext ≡ true
      → valid_blob_key (blob_key os sha256 root contents ext) ≡ true
  blob_key-valid v contents ext h =
      let bs = sha256 contents in
      let twice : length bs + length bs ≡ 64 = omega (arith, v.size contents) in
      subst (λ n. valid_from n (hex bs ++ ext) ≡ true) twice
        (valid_from-hex bs ext (v.bytes contents) ∙ h)

  -- A key that is answered is the one asked for, and its file is there.
  unfoldable Stores : List ℕ → List ℕ → S × PutResult → Type 0
  Stores contents key r = (k : List ℕ) → r.1 ≡ put_key k → (k ≡ key) × HoldsHash contents key r.0

  refused : (contents key : List ℕ) (s : S) (e : PutError) → Stores contents key (s, put_error e)
  unfolding Stores
  refused contents key s e k g = cc

  module _ (b : ReadsBack os) where
    written_temp-Stores :
        (tmp : FilePath) (contents key : List ℕ) (r : S × Bool)
        → (r.1 ≡ true → os.read_file tmp r.0 ≡ some contents)
        → Stores contents key
            (written_temp os sha256 root tmp (join_text (blobs_dir os sha256 root) key) key r)
    unfolding written_temp rename_temp Stores
    written_temp-Stores tmp contents key (s, ok) h =
        let final = join_text (blobs_dir os sha256 root) key in
        if_elim (Stores contents key) ok _ _
          (λ t.
            if_elim (Stores contents key) (os.rename tmp final s).1 _ _
              (λ u k g.
                let same : key ≡ k = cc in
                (sym same, (contents, b.renames tmp final contents s (h t) u, refl)))
              (λ u. refused contents key _ rename_failed))
          (λ t. refused contents key _ write_failed)

    write_temp-Stores :
        (temp : Option (List ℕ)) (contents key : List ℕ) (r : S × Bool)
        → Stores contents key (
            write_temp os sha256 root temp
              (join_text (blobs_dir os sha256 root) key)
              key
              contents
              r)
    unfolding write_temp Stores
    write_temp-Stores none contents key (s, ok) =
        if_cases (Stores contents key) ok _ _ (refused contents key s temp_failed)
          (refused contents key s mkdir_failed)
    write_temp-Stores (some tmp) contents key (s, ok) =
        let path = join_name (blobs_dir os sha256 root) tmp in
        if_cases (Stores contents key) ok _ _
          (if_elim (Stores contents key) (os.create path 0o600 s).1 _ _
            (λ t. written_temp-Stores path contents key _ (λ u. b.copies path 0o600 contents s t u))
            (λ t. refused contents key _ temp_failed))
          (refused contents key _ mkdir_failed)

    -- Every file under a key holds bytes with the hash that the key names.
    abbrev pub IsAddressed : S → Type 0
    IsAddressed s =
        (contents ext : List ℕ)
        → os.stat (join_text (blobs_dir os sha256 root) (blob_key os sha256 root contents ext)) s
          ≡ true
        → HoldsHash contents (blob_key os sha256 root contents ext) s

    put_supported-Stores :
        (temp : Option (List ℕ)) (contents ext : List ℕ) (s : S)
        → IsAddressed s
        → Stores contents
            (blob_key os sha256 root contents ext)
            (put_supported os sha256 root temp contents (some ext) s)
    unfolding put_supported Stores
    put_supported-Stores temp contents ext s a =
        let key = blob_key os sha256 root contents ext in
        if_elim (Stores contents key) (os.stat (join_text (blobs_dir os sha256 root) key) s) _ _
          (λ t k g. let same : key ≡ k = cc in (sym same, a contents ext t))
          (λ t.
            write_temp-Stores temp contents key (os.mkdir_all (blobs_dir os sha256 root) 0o755 s))

    Stores-get :
        (contents ext k : List ℕ) (r : S × PutResult)
        → IsHash sha256
        → known_extension ext ≡ true
        → Stores contents (blob_key os sha256 root contents ext) r
        → r.1 ≡ put_key k
        → (d : List ℕ) × (get os sha256 root k r.0 ≡ some d) × (sha256 d ≡ sha256 contents)
    unfolding Stores get
    Stores-get contents ext k r v e h g =
        let (same, (d, read, hashed)) = h k g in
        let valid : valid_blob_key k ≡ true =
          ap valid_blob_key same ∙ blob_key-valid v contents ext e in
        (d, rw (valid, same) read, hashed)

    get-put_supported :
        (temp : Option (List ℕ)) (contents key : List ℕ) (o : Option (List ℕ)) (s : S)
        → ((ext : List ℕ) → o ≡ some ext → known_extension ext ≡ true)
        → IsHash sha256
        → IsAddressed s
        → (put_supported os sha256 root temp contents o s).1 ≡ put_key key
        → (d : List ℕ) × (get os sha256 root key (put_supported os sha256 root temp contents o s).0
            ≡ some d)
          × (sha256 d ≡ sha256 contents)
    unfolding put_supported
    get-put_supported temp contents key none s e v a h =
        let wrong : put_error unsupported ≡ put_key key = h in (contents, cc, cc)
    get-put_supported temp contents key (some ext) s e v a h =
        Stores-get contents ext key _ v (e ext refl) (put_supported-Stores temp contents ext s a) h

    -- What `Put` stores is found by `Get`: with a hash of 32 bytes, on a file system that keeps what
    -- is copied and renamed, and where every file under a key holds bytes with the hash that the key
    -- names, when `Put` returns a key then `Get` accepts it and returns bytes with the hash of those
    -- that were put.
    pub get-put :
        (temp : Option (List ℕ)) (contents key : List ℕ) (media_type : String) (s : S)
        → IsHash sha256
        → IsAddressed s
        → (put os sha256 root temp contents media_type s).1 ≡ put_key key
        → (d : List ℕ) × (get os sha256 root key (put os sha256 root temp contents media_type s).0
            ≡ some d)
          × (sha256 d ≡ sha256 contents)
    unfolding put
    get-put temp contents key media_type s v a =
        if_cases
          (λ (r : S × PutResult).
            r.1 ≡ put_key key
            → (d : List ℕ) × (get os sha256 root key r.0 ≡ some d) × (sha256 d ≡ sha256 contents))
          (ltb max_image_bytes (length contents)) _ _
          (λ h. let wrong : put_error too_large ≡ put_key key = h in (contents, cc, cc))
          (get-put_supported temp contents key (ext_for_media_type media_type) s
            (ext-known media_type) v a)
