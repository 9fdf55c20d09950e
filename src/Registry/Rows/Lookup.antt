-- ===== src/Registry/Rows/Lookup.antt =====
-- What is read back of the rows of internal/registry/instances.go after a save or an update.
use aegisvm.Base.{
  ℕ, ◌≡◌, refl, Option, none, some, String, ◌=s◌, =s_iff, if◌then◌else◌, lookup, lookup-insert,
  lookup-insert_self, lookup-erase, arith,
}
use aegisvm.Registry.Rows.{
  InstanceRow, Tables, upsert, save_instance, get_instance, update, updated, delete_instance,
}

abbrev pub mapped : (InstanceRow → InstanceRow) → Option InstanceRow → Option InstanceRow
mapped f none = none
mapped f (some r) = some (f r)

updated-lookup :
    (id j : String) (f : InstanceRow → InstanceRow) (t : Tables) (o : Option InstanceRow)
    → lookup id t.instances ≡ o
    → lookup j (updated id f t o).0.instances
      ≡ (if id =s j then mapped f (lookup j t.instances) else lookup j t.instances)
unfolding updated
updated-lookup id j f t none h = ground (arith, =s_iff id j)
updated-lookup id j f t (some r) h =
    ground (arith, =s_iff id j, lookup-insert id j (f r) t.instances)

pub get_instance-update :
    (id j : String) (f : InstanceRow → InstanceRow) (t : Tables)
    → get_instance j (update id f t).0
      ≡ (if id =s j then mapped f (get_instance j t) else get_instance j t)
unfolding get_instance update
get_instance-update id j f t = updated-lookup id j f t (lookup id t.instances) refl

pub get_instance-save_instance :
    (now : ℕ) (row : InstanceRow) (t : Tables)
    → get_instance row.id (save_instance now row t)
      ≡ some (upsert now row (lookup row.id t.instances))
unfolding get_instance save_instance
get_instance-save_instance now row t = lookup-insert_self row.id _ t.instances

pub get_instance-delete_instance :
    (id j : String) (t : Tables)
    → get_instance j (delete_instance id t) ≡ (if id =s j then none else get_instance j t)
unfolding get_instance delete_instance
get_instance-delete_instance id j t = lookup-erase id j t.instances
