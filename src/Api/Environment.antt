-- ===== src/Api/Environment.antt =====
-- The variables of an instance, from secrets and its own: `resolveEnv` of internal/api/server.go and the
-- callback before a boot in cmd/aegisd/main.go. What a stored value decrypts to is an argument. The
-- loop over the secrets, a slice, is in its order; the one over the explicit variables, a Go map, meets
-- each key once, in any order: there the first entry of a key stands for it.
pub mod Allowed
use aegisvm.Base.{
  ℕ, List, [], ◌∷◌, Option, none, some, String, Bool, true, false, ◌||◌, ◌=s◌, if◌then◌else◌,
  insert,
}
use aegisvm.Lifecycle.Types.{Env, Instance}
use aegisvm.Registry.Rows.{Secret}

-- Whether the keys are `["*"]`.
unfoldable pub inject_all : List String → Bool
inject_all [] = false
inject_all (k ∷ []) = k =s "*"
inject_all (k ∷ j ∷ ks) = false

unfoldable pub in_allowlist : String → List String → Bool
in_allowlist name [] = false
in_allowlist name (k ∷ ks) = (k =s name) || in_allowlist name ks

abbrev pub is_allowed : List String → String → Bool
is_allowed keys name = inject_all keys || in_allowlist name keys

abbrev pub set_decrypted : String → Option String → Env → Env
set_decrypted name none env = env
set_decrypted name (some v) env = insert name v env

module _ (decrypt : List ℕ → Option String) where
  -- The loop over the secrets: a later one of a name takes the place of an earlier one.
  unfoldable pub inject_into : List String → List Secret → Env → Env
  unfolding inject_all in_allowlist
  inject_into keys [] env = env
  inject_into keys (s ∷ ss) env =
      inject_into keys ss
        (if is_allowed keys s.name then set_decrypted s.name (decrypt s.value) env else env)

  -- The variables of the secrets.
  unfoldable pub inject_secrets : List String → List Secret → Env
  unfolding inject_into
  inject_secrets keys ss = inject_into keys ss []

  -- The loop over the explicit variables.
  unfoldable pub override : Env → Env → Env
  override [] env = env
  override ((k, v) ∷ explicit) env = insert k v (override explicit env)

  abbrev secrets_for : List String → List Secret → Env
  secrets_for [] secrets = []
  secrets_for (k ∷ ks) secrets = inject_secrets (k ∷ ks) secrets

  -- `resolveEnv`
  unfoldable pub resolve_env : List String → Env → List Secret → Env
  unfolding inject_secrets override
  resolve_env keys explicit secrets = override explicit (secrets_for keys secrets)

  -- The callback of `OnPreBoot`, with `SetBootEnv`.
  unfoldable pub pre_boot : List Secret → Instance → Instance
  unfolding resolve_env
  pre_boot secrets i = record i { boot_env = resolve_env i.spec.secret_keys i.env secrets }

unfoldable pub add_key : String → List String → List String
unfolding in_allowlist
add_key k [] = k ∷ []
add_key k (j ∷ ks) = let rest = add_key k ks in if j =s k then j ∷ ks else j ∷ rest

-- `MergeSecretKeys`
unfoldable pub merge_secret_keys : List String → List String → List String
unfolding add_key
merge_secret_keys existing [] = existing
merge_secret_keys existing (k ∷ ks) = merge_secret_keys (add_key k existing) ks
