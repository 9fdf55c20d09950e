-- ===== src/Api/Environment/Allowed.antt =====
-- What the variables of Api/Environment are.
use aegisvm.Base.{
  ℕ, ◌≡◌, refl, ap, ◌∙◌, List, [], ◌∷◌, Option, none, some, String, true, ◌=s◌, =s_iff,
  if◌then◌else◌, lookup, lookup-insert, arith,
}
use aegisvm.Lifecycle.Types.{Env}
use aegisvm.Registry.Rows.{Secret}
use aegisvm.Api.Environment.{
  inject_all, in_allowlist, is_allowed, set_decrypted, inject_into, inject_secrets, override,
  secrets_for, resolve_env,
}

abbrev pub or_else : Option String → Option String → Option String
or_else none o = o
or_else (some v) o = some v

module _ (decrypt : List ℕ → Option String) where
  -- The last secret of the name that can be decrypted.
  unfoldable pub secret_value : String → List Secret → Option String
  secret_value name [] = none
  secret_value name (s ∷ ss) =
      if s.name =s name
      then or_else (secret_value name ss) (decrypt s.value)
      else secret_value name ss

  allowed_alike :
      (keys : List String) (j k : String) → (j =s k) ≡ true → is_allowed keys j ≡ is_allowed keys k
  allowed_alike keys j k h = ap (is_allowed keys) ((=s_iff j k).0 h)

  lookup-set_decrypted :
      (k name : String) (o : Option String) (env : Env)
      → lookup k (set_decrypted name o env)
        ≡ (if name =s k then or_else o (lookup k env) else lookup k env)
  lookup-set_decrypted k name none env = ground arith
  lookup-set_decrypted k name (some v) env = lookup-insert name k v env

  lookup-inject_into :
      (keys : List String) (k : String) (ss : List Secret) (env : Env)
      → lookup k (inject_into decrypt keys ss env)
        ≡ (if is_allowed keys k then or_else (secret_value k ss) (lookup k env) else lookup k env)
  unfolding inject_into secret_value
  lookup-inject_into keys k [] env = ground arith
  lookup-inject_into keys k (s ∷ ss) env = ground (
    arith,
    lookup-set_decrypted k s.name (decrypt s.value) env,
    lookup-inject_into keys k ss
        (if is_allowed keys s.name then set_decrypted s.name (decrypt s.value) env else env),
    allowed_alike keys s.name k,
  )

  or_else-none : (o : Option String) → or_else o none ≡ o
  or_else-none none = refl
  or_else-none (some v) = refl

  lookup-inject_secrets :
      (keys : List String) (k : String) (ss : List Secret)
      → lookup k (inject_secrets decrypt keys ss)
        ≡ (if is_allowed keys k then secret_value k ss else none)
  unfolding inject_secrets lookup
  lookup-inject_secrets keys k ss =
      lookup-inject_into keys k ss []
      ∙ ap (λ o. if is_allowed keys k then o else none) (or_else-none (secret_value k ss))

  lookup-override :
      (k : String) (explicit env : Env)
      → lookup k (override decrypt explicit env) ≡ or_else (lookup k explicit) (lookup k env)
  unfolding override lookup
  lookup-override k [] env = refl
  lookup-override k ((j, v) ∷ explicit) env =
      ground
        (arith, lookup-insert j k v (override decrypt explicit env), lookup-override k explicit env)

  lookup-secrets_for :
      (keys : List String) (k : String) (ss : List Secret)
      → lookup k (secrets_for decrypt keys ss)
        ≡ (if is_allowed keys k then secret_value k ss else none)
  unfolding lookup in_allowlist inject_all
  lookup-secrets_for [] k ss = refl
  lookup-secrets_for (j ∷ keys) k ss = lookup-inject_secrets (j ∷ keys) k ss

  -- The variables an instance boots with: a name has the instance's own value if there is one; else,
  -- if the secret keys are just `*` or name it, the value of the last secret of that name that can be
  -- decrypted; and else none.
  pub lookup-resolve_env :
      (keys : List String) (explicit : Env) (secrets : List Secret) (k : String)
      → lookup k (resolve_env decrypt keys explicit secrets)
        ≡ or_else (lookup k explicit) (if is_allowed keys k then secret_value k secrets else none)
  unfolding resolve_env
  lookup-resolve_env keys explicit secrets k =
      lookup-override k explicit (secrets_for decrypt keys secrets)
      ∙ ap (or_else (lookup k explicit)) (lookup-secrets_for keys k secrets)
