-- ===== src/Secrets.antt =====
-- internal/secrets/store.go: the master key and what is sealed with it. Bytes are numbers. AES-256-GCM
-- and base64 are libraries: `Aead` is what the code calls of the first. What the file system and the
-- random source answer are arguments; an error is `none`.
pub mod Sealed
use aegisvm.Base.{
  ℕ, ◌≡◌, List, ◌++◌, Option, none, some, Bool, true, false, ltb, ◌==◌, if◌then◌else◌, length, take,
  drop,
}

pub record Aead : Type 0 where
  -- Whether `aes.NewCipher` takes the key.
  pub accepts : List ℕ → Bool
  pub nonce_size : ℕ
  -- Key, nonce and plain text; key, nonce and sealed text.
  pub seal : List ℕ → List ℕ → List ℕ → List ℕ
  pub open_sealed : List ℕ → List ℕ → List ℕ → Option (List ℕ)

abbrev pub master_key_len : ℕ
master_key_len = 32

-- `Store`, without the path.
pub record SecretStore : Type 0 where
  pub master_key : List ℕ

pub data KeyFile : Type 0 where
  contents : List ℕ → KeyFile
  missing unreadable : KeyFile

pub record KeyIo : Type 0 where
  pub file : KeyFile
  -- The bytes of the random source, if it has them.
  pub random : Option (List ℕ)
  pub made_directory : Bool
  pub written : Bool

generated : KeyIo → Option (List ℕ) → Option SecretStore × KeyFile
generated io none = (none, missing)
generated io (some key) =
    if io.made_directory
    then if io.written
      then (some (record { master_key = key }), contents key)
      else (none, unreadable)
    else (none, missing)

loaded : KeyIo → KeyFile → Option SecretStore × KeyFile
unfolding generated
loaded io (contents data') =
    if length data' == master_key_len
    then (some (record { master_key = data' }), contents data')
    else (none, contents data')
loaded io missing = generated io io.random
loaded io unreadable = (none, unreadable)

-- `NewStore`, with the key file as it leaves it; a failed write may leave anything.
unfoldable pub new_store : KeyIo → Option SecretStore × KeyFile
unfolding loaded
new_store io = loaded io io.file

module _ (aead : Aead) where
  sealed : SecretStore → List ℕ → Option (List ℕ) → Option (List ℕ)
  sealed s plaintext none = none
  sealed s plaintext (some nonce) = some (nonce ++ aead.seal s.master_key nonce plaintext)

  -- `Encrypt`; the nonce is what the random source answers.
  unfoldable pub encrypt : Option (List ℕ) → SecretStore → List ℕ → Option (List ℕ)
  unfolding sealed
  encrypt nonce s plaintext = if aead.accepts s.master_key then sealed s plaintext nonce else none

  -- `Decrypt`
  unfoldable pub decrypt : SecretStore → List ℕ → Option (List ℕ)
  decrypt s ciphertext =
      if aead.accepts s.master_key
      then if ltb (length ciphertext) aead.nonce_size
        then none
        else aead.open_sealed s.master_key (take aead.nonce_size ciphertext)
            (drop aead.nonce_size ciphertext)
      else none
