-- ===== src/Lifecycle/Token.antt =====
-- internal/lifecycle/token.go: capability tokens, sealed by the secret store. JSON and base64 are
-- libraries: `Codec` is what the code calls of them. A token is its list of code points. Times are Unix seconds; an error is `none`.
use aegisvm.Base.{
  ℕ, ◌≡◌, refl, List, ◌++◌, Option, none, some, String, ℤ, pos, ◌+ℤ◌, ◌-ℤ◌, ltb_ℤ, eqb_ℤ,
  if◌then◌else◌, length,
}
use aegisvm.Secrets.{Aead, SecretStore, encrypt, decrypt, master_key_len}
use aegisvm.Secrets.Sealed.{IsAead, encrypt-some, decrypt-sealed}
use aegisvm.Lifecycle.Types.{Capabilities}
use aegisvm.Lifecycle.Guest.{child_capabilities}

pub record Codec : Type 0 where
  pub marshal : Capabilities → List ℕ
  pub unmarshal : List ℕ → Option Capabilities
  pub encode : List ℕ → List ℕ
  pub decode : List ℕ → Option (List ℕ)

-- What is in a token that is generated at a time.
unfoldable pub issued : ℤ → String → Capabilities → Capabilities
issued now parent_id caps =
    let expire_at = if eqb_ℤ caps.expire_at (pos 0) then now +ℤ pos 86400 else caps.expire_at in
    record caps { parent_id = parent_id; issued_at = now; expire_at = expire_at }

module _ (aead : Aead) (codec : Codec) where
  encoded : Option (List ℕ) → Option (List ℕ)
  encoded none = none
  encoded (some data') = some (codec.encode data')

  -- `GenerateToken`
  unfoldable pub generate_token :
      Option (List ℕ) → SecretStore → ℤ → String → Capabilities → Option (List ℕ)
  unfolding encoded
  generate_token nonce ss now parent_id caps =
      encoded (encrypt aead nonce ss (codec.marshal (issued now parent_id caps)))

  unexpired : ℤ → Option Capabilities → Option Capabilities
  unexpired now none = none
  unexpired now (some token) = if ltb_ℤ token.expire_at now then none else some token

  parsed : ℤ → Option (List ℕ) → Option Capabilities
  unfolding unexpired
  parsed now none = none
  parsed now (some data') = unexpired now (codec.unmarshal data')

  opened : SecretStore → ℤ → Option (List ℕ) → Option Capabilities
  unfolding parsed
  opened ss now none = none
  opened ss now (some encrypted) = parsed now (decrypt aead ss encrypted)

  -- `ValidateToken`
  unfoldable pub validate_token : SecretStore → ℤ → List ℕ → Option Capabilities
  unfolding opened
  validate_token ss now token = opened ss now (codec.decode token)

  -- `MintChildToken`
  unfoldable pub mint_child_token :
      Option (List ℕ) → SecretStore → ℤ → String → Capabilities → Option (List ℕ)
  mint_child_token nonce ss now child_id parent =
      generate_token nonce ss now child_id (child_capabilities parent)

-- What the documentation of the codecs promises: the capabilities that were written are read, and
-- so are all bytes.
pub record IsCodec (codec : Codec) (caps : Capabilities) : Type 0 where
  pub reads : codec.unmarshal (codec.marshal caps) ≡ some caps
  pub decodes : (data' : List ℕ) → codec.decode (codec.encode data') ≡ some data'

module _ (aead : Aead) (codec : Codec) (v : IsAead aead) where
  -- A token that is generated is read back as it was issued, up to the second at which it expires, and
  -- rejected after it, by a store with a key of 32 bytes, for a nonce of the cipher's size and a codec
  -- that reads what it wrote.
  pub validate_token-generate_token :
      (ss : SecretStore) (nonce : List ℕ) (now later : ℤ) (id : String) (caps : Capabilities)
      → length ss.master_key ≡ master_key_len
      → length nonce ≡ aead.nonce_size
      → IsCodec codec (issued now id caps)
      → ((token : List ℕ) × (generate_token aead codec (some nonce) ss now id caps ≡ some token)
          × (validate_token aead codec ss later token ≡ (
              if ltb_ℤ (issued now id caps).expire_at later
              then none
              else some (issued now id caps))))
  unfolding generate_token encoded validate_token opened parsed unexpired
  validate_token-generate_token ss nonce now later id caps k n c =
      let plain = codec.marshal (issued now id caps) in
      let data' = nonce ++ aead.seal ss.master_key nonce plain in
      (
        codec.encode data',
        rw (encrypt-some aead ss nonce plain v k) refl,
        rw (c.decodes data', decrypt-sealed aead ss nonce plain v k n, c.reads) refl,
      )

  -- A token minted for a child is accepted for 24 hours and rejected after them, whenever the parent's
  -- own token expires, by a store with a key of 32 bytes, for a nonce of the cipher's size and a codec
  -- that reads what it wrote. While accepted it carries the parent's ceilings, one level of spawning
  -- less, and the right to spawn only if the parent may spawn deeper than one level.
  pub validate_token-mint_child_token :
      (ss : SecretStore) (nonce : List ℕ) (now later : ℤ) (id : String) (parent : Capabilities)
      → length ss.master_key ≡ master_key_len
      → length nonce ≡ aead.nonce_size
      → IsCodec codec (issued now id (child_capabilities parent))
      → let child : Capabilities = record {
        parent_id = id;
        issued_at = now;
        expire_at = now +ℤ pos 86400;
        spawn = ltb_ℤ (pos 1) parent.spawn_depth;
        spawn_depth = parent.spawn_depth -ℤ pos 1;
        max_children = parent.max_children;
        allowed_images = parent.allowed_images;
        max_memory_mb = parent.max_memory_mb;
        max_vcpus = parent.max_vcpus;
        allowed_secrets = parent.allowed_secrets;
        max_expose_ports = parent.max_expose_ports;
      } in
        ((token : List ℕ) × (mint_child_token aead codec (some nonce) ss now id parent ≡ some token)
          × (validate_token aead codec ss later token
              ≡ (if ltb_ℤ (now +ℤ pos 86400) later then none else some child)))
  unfolding mint_child_token issued child_capabilities
  validate_token-mint_child_token ss nonce now later id parent k n c =
      validate_token-generate_token ss nonce now later id (child_capabilities parent) k n c
