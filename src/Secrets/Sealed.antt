-- ===== src/Secrets/Sealed.antt =====
-- Sealing and opening of internal/secrets/store.go, across a restart of the daemon.
use aegisvm.Base.{
  ℕ, zero, suc, ◌≡◌, refl, ap, ◌∙◌, List, [], ◌∷◌, ◌++◌, Option, none, some, true, false, ltb, ◌==◌,
  if_cases, if_elim, length, take, drop, length-append, arith,
}
use aegisvm.Secrets.{
  Aead, SecretStore, KeyFile, contents, missing, unreadable, KeyIo, new_store, loaded, generated,
  master_key_len, encrypt, sealed, decrypt,
}

-- What the documentation of the cipher promises: keys of 32 bytes are accepted, and what was sealed
-- under a nonce of the right size opens with the same key and nonce.
pub record IsAead (aead : Aead) : Type 0 where
  pub accepts : (key : List ℕ) → length key ≡ master_key_len → aead.accepts key ≡ true
  pub opens :
      (key nonce plaintext : List ℕ)
      → length nonce ≡ aead.nonce_size
      → aead.open_sealed key nonce (aead.seal key nonce plaintext) ≡ some plaintext

take-append : (n : ℕ) (xs ys : List ℕ) → length xs ≡ n → take n (xs ++ ys) ≡ xs
take-append zero [] ys h = refl
take-append zero (x ∷ xs) ys h = cc
take-append (suc n) [] ys h = cc
take-append (suc n) (x ∷ xs) ys h = ap (λ zs. x ∷ zs) (take-append n xs ys (omega arith))

drop-append : (n : ℕ) (xs ys : List ℕ) → length xs ≡ n → drop n (xs ++ ys) ≡ ys
drop-append zero [] ys h = refl
drop-append zero (x ∷ xs) ys h = cc
drop-append (suc n) [] ys h = cc
drop-append (suc n) (x ∷ xs) ys h = drop-append n xs ys (omega arith)

-- The random source, when it answers, fills a key of 32 bytes.
abbrev pub FillsKey : Option (List ℕ) → Type 0
FillsKey none = Unit
FillsKey (some key) = length key ≡ master_key_len

abbrev pub Leaves : SecretStore → Option SecretStore × KeyFile → Type 0
Leaves s r = r.0 ≡ some s → (length s.master_key ≡ master_key_len) × (r.1 ≡ contents s.master_key)

opened-Leaves :
    (s : SecretStore) (key : List ℕ)
    → length key ≡ master_key_len
    → Leaves s (some (record { master_key = key }), contents key)
opened-Leaves s key k h = let same : key ≡ s.master_key = cc in (rw⁻¹ same k, ap contents same)

generated-length :
    (io : KeyIo) (o : Option (List ℕ)) (s : SecretStore) → FillsKey o → Leaves s (generated io o)
unfolding generated
generated-length io none s k = λ e. cc
generated-length io (some key) s k =
    if_cases (Leaves s) io.made_directory _ _
      (if_cases (Leaves s) io.written _ _ (opened-Leaves s key k) (λ e. cc)) (λ e. cc)

loaded-length :
    (io : KeyIo) (f : KeyFile) (s : SecretStore) → FillsKey io.random → Leaves s (loaded io f)
unfolding loaded
loaded-length io (contents key) s k =
    if_elim (Leaves s) (length key == master_key_len) _ _ (λ t. opened-Leaves s key (ground arith))
      (λ t e. cc)
loaded-length io missing s k = generated-length io io.random s k
loaded-length io unreadable s k = λ e. cc

-- A store that opens has a key of 32 bytes, and leaves it in the file.
pub new_store-length :
    (io : KeyIo) (s : SecretStore)
    → FillsKey io.random
    → (new_store io).0 ≡ some s
    → (length s.master_key ≡ master_key_len) × ((new_store io).1 ≡ contents s.master_key)
unfolding new_store
new_store-length io s k h = loaded-length io io.file s k h

pub decrypt-sealed :
    (aead : Aead) (s : SecretStore) (nonce plaintext : List ℕ)
    → IsAead aead
    → length s.master_key ≡ master_key_len
    → length nonce ≡ aead.nonce_size
    → decrypt aead s (nonce ++ aead.seal s.master_key nonce plaintext) ≡ some plaintext
unfolding decrypt
decrypt-sealed aead s nonce plaintext v k n =
    let ys = aead.seal s.master_key nonce plaintext in
    let long : ltb (length (nonce ++ ys)) aead.nonce_size ≡ false =
      ground (arith, length-append nonce ys, n) in
    rw
      (
        v.accepts s.master_key k,
        long,
        take-append aead.nonce_size nonce ys n,
        drop-append aead.nonce_size nonce ys n,
      )
      (v.opens s.master_key nonce plaintext n)

pub encrypt-some :
    (aead : Aead) (s : SecretStore) (nonce plaintext : List ℕ)
    → IsAead aead
    → length s.master_key ≡ master_key_len
    → encrypt aead (some nonce) s plaintext ≡ some (nonce ++ aead.seal s.master_key nonce plaintext)
unfolding encrypt sealed
encrypt-some aead s nonce plaintext v k = rw (v.accepts s.master_key k) refl

loaded-contents :
    (io : KeyIo) (s : SecretStore)
    → length s.master_key ≡ master_key_len
    → (loaded io (contents s.master_key)).0 ≡ some s
unfolding loaded
loaded-contents io s k = ground (arith, k)

reloaded :
    (again : KeyIo) (s : SecretStore)
    → length s.master_key ≡ master_key_len
    → again.file ≡ contents s.master_key
    → (new_store again).0 ≡ some s
unfolding new_store
reloaded again s k h = ap (λ f. (loaded again f).0) h ∙ loaded-contents again s k

-- A secret outlives the daemon: when a store is opened, with a random source that fills what it is
-- asked for, whatever the store encrypts under a nonce of the cipher's size is decrypted to the same
-- bytes by any later store that is opened on the key file as the first left it.
pub decrypt-encrypt :
    (aead : Aead) (io again : KeyIo) (s : SecretStore) (nonce plaintext : List ℕ)
    → IsAead aead
    → FillsKey io.random
    → (new_store io).0 ≡ some s
    → again.file ≡ (new_store io).1
    → length nonce ≡ aead.nonce_size
    → ((ct : List ℕ) × (encrypt aead (some nonce) s plaintext ≡ some ct)
        × ((later : SecretStore) × ((new_store again).0 ≡ some later)
            × (decrypt aead later ct ≡ some plaintext)))
decrypt-encrypt aead io again s nonce plaintext v k h f n = (
  nonce ++ aead.seal s.master_key nonce plaintext,
  encrypt-some aead s nonce plaintext v (new_store-length io s k h).0,
  (
    s,
    reloaded again s (new_store-length io s k h).0 (f ∙ (new_store-length io s k h).1),
    decrypt-sealed aead s nonce plaintext v (new_store-length io s k h).0 n,
  ),
)
