-- ===== src/Registry/Rows.antt =====
-- internal/registry/instances.go and secrets.go: the tables of instances and secrets, as maps by their
-- keys. The database and JSON are libraries: a row holds the values, and a statement that the database
-- refuses changes nothing. Times are seconds, `none` is the zero time; the updates write theirs by
-- `datetime('now')`, which is not the format that is read back, so it is read as the zero time.
pub mod Upsert
pub mod Lookup
use aegisvm.Base.{
  ℕ, List, [], ◌∷◌, Option, none, some, String, ℤ, Bool, true, false, ◌=s◌, if◌then◌else◌, lookup,
  insert, erase,
}

-- `Instance`
pub record InstanceRow : Type 0 where
  pub id : String
  pub state : String
  pub command : List String
  pub expose_ports : List ℤ
  pub vm_id : String
  pub handle : String
  pub image_ref : String
  pub workspace : String
  pub env : List (String × String)
  pub secret_keys : List String
  pub public_ports : List (ℤ × ℤ)
  pub enabled : Bool
  pub memory_mb : ℤ
  pub vcpus : ℤ
  pub parent_id : String
  pub capabilities : String
  pub kit : String
  pub auto_workspace : Bool
  pub stopped_at : Option ℕ
  pub created_at : ℕ
  pub updated_at : Option ℕ

pub record Secret : Type 0 where
  pub id : String
  pub name : String
  pub value : List ℕ
  pub created_at : ℕ

pub record Tables : Type 0 where
  pub instances : List (String × InstanceRow)
  pub secrets : List (String × Secret)

kept_ports : List (ℤ × ℤ) → List (ℤ × ℤ) → List (ℤ × ℤ)
kept_ports old [] = old
kept_ports old (p ∷ ps) = p ∷ ps

-- The row that an insert leaves: the DO UPDATE keeps the creation time, and the public ports where
-- the new ones are `{}`.
unfoldable pub upsert : ℕ → InstanceRow → Option InstanceRow → InstanceRow
unfolding kept_ports
upsert now inst none = record inst { updated_at = some now }
upsert now inst (some old) = record inst {
  updated_at = some now;
  created_at = old.created_at;
  public_ports = kept_ports old.public_ports inst.public_ports;
}

-- `SaveInstance`
unfoldable pub save_instance : ℕ → InstanceRow → Tables → Tables
save_instance now inst t = record t {
  instances = insert inst.id (upsert now inst (lookup inst.id t.instances)) t.instances;
}

-- `GetInstance`
unfoldable pub get_instance : String → Tables → Option InstanceRow
get_instance id t = lookup id t.instances

-- An UPDATE of one instance, and whether it has a row.
updated : String → (InstanceRow → InstanceRow) → Tables → Option InstanceRow → Tables × Bool
updated id f t none = (t, false)
updated id f t (some row) = (record t { instances = insert id (f row) t.instances }, true)

unfoldable pub update : String → (InstanceRow → InstanceRow) → Tables → Tables × Bool
unfolding updated
update id f t = updated id f t (lookup id t.instances)

-- `UpdateState`, which reports an instance that is not there, as `UpdateEnabled` does.
unfoldable pub update_state : String → String → Tables → Tables × Bool
update_state id state t = update id (λ r. record r { state = state; updated_at = none }) t

-- `UpdateVMID`
unfoldable pub update_vm_id : String → String → Tables → Tables
update_vm_id id vm t = (update id (λ r. record r { vm_id = vm; updated_at = none }) t).0

-- `UpdateStoppedAt`
unfoldable pub update_stopped_at : String → Option ℕ → Tables → Tables
update_stopped_at id at t = (update id (λ r. record r { stopped_at = at; updated_at = none }) t).0

-- `UpdateEnabled`
unfoldable pub update_enabled : String → Bool → Tables → Tables × Bool
update_enabled id on t = update id (λ r. record r { enabled = on; updated_at = none }) t

-- `UpdateExposePorts`
unfoldable pub update_expose_ports : String → List ℤ → Tables → Tables
update_expose_ports id ports t =
    (update id (λ r. record r { expose_ports = ports; updated_at = none }) t).0

-- `UpdatePublicPorts`
unfoldable pub update_public_ports : String → List (ℤ × ℤ) → Tables → Tables
update_public_ports id ports t =
    (update id (λ r. record r { public_ports = ports; updated_at = none }) t).0

-- `DeleteInstance`
unfoldable pub delete_instance : String → Tables → Tables
delete_instance id t = record t { instances = erase id t.instances }

-- Whether a secret of another name has the id, the table's primary key.
unfoldable pub has_other_id : Secret → List (String × Secret) → Bool
has_other_id s [] = false
has_other_id s ((name, r) ∷ m) =
    let rest = has_other_id s m in
    if name =s s.name then rest else if r.id =s s.id then true else rest

-- `SaveSecret`
unfoldable pub save_secret : Secret → Tables → Tables
unfolding has_other_id
save_secret s t =
    if has_other_id s t.secrets then t else record t { secrets = insert s.name s t.secrets }

-- `GetSecretByName`
unfoldable pub get_secret_by_name : String → Tables → Option Secret
get_secret_by_name name t = lookup name t.secrets

has_row : Option Secret → Bool
has_row none = false
has_row (some s) = true

-- `DeleteSecretByName`, and whether there was one.
unfoldable pub delete_secret_by_name : String → Tables → Tables × Bool
unfolding has_row
delete_secret_by_name name t =
    (record t { secrets = erase name t.secrets }, has_row (lookup name t.secrets))
