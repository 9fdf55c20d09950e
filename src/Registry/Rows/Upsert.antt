-- ===== src/Registry/Rows/Upsert.antt =====
-- What a row of internal/registry/instances.go keeps over saves and updates.
use aegisvm.Base.{
  ℕ, ◌≡◌, refl, ap, sym, subst, ◌∙◌, List, [], ◌∷◌, Option, none, some, String, ℤ, Bool, true,
  false, ◌=s◌, =s_iff, if_elim, All, lookup, insert, lookup-insert, lookup-erase, arith,
}
use aegisvm.Registry.Rows.{
  InstanceRow, Secret, Tables, kept_ports, upsert, save_instance, get_instance, update, updated,
  update_state, update_vm_id, update_stopped_at, update_enabled, update_expose_ports,
  update_public_ports, delete_instance, has_other_id, save_secret, delete_secret_by_name,
}

pub data RegistryOp : Type 0 where
  saves : ℕ → InstanceRow → RegistryOp
  sets_state sets_vm_id : String → String → RegistryOp
  sets_stopped_at : String → Option ℕ → RegistryOp
  sets_enabled : String → Bool → RegistryOp
  sets_expose_ports : String → List ℤ → RegistryOp
  sets_public_ports : String → List (ℤ × ℤ) → RegistryOp
  deletes deletes_secret : String → RegistryOp
  saves_secret : Secret → RegistryOp

unfoldable pub registry_op : RegistryOp → Tables → Tables
registry_op (saves now inst) t = save_instance now inst t
registry_op (sets_state id state) t = (update_state id state t).0
registry_op (sets_vm_id id vm) t = update_vm_id id vm t
registry_op (sets_stopped_at id at) t = update_stopped_at id at t
registry_op (sets_enabled id on) t = (update_enabled id on t).0
registry_op (sets_expose_ports id ports) t = update_expose_ports id ports t
registry_op (sets_public_ports id ports) t = update_public_ports id ports t
registry_op (deletes id) t = delete_instance id t
registry_op (deletes_secret name) t = (delete_secret_by_name name t).0
registry_op (saves_secret s) t = save_secret s t

unfoldable pub registry_ops : List RegistryOp → Tables → Tables
unfolding registry_op
registry_ops [] t = t
registry_ops (o ∷ os) t = registry_ops os (registry_op o t)

-- Not a deletion of the instance, and no word on its public ports.
abbrev pub Leaves : String → RegistryOp → Type 0
Leaves id (saves now inst) = (inst.id =s id) ≡ true → inst.public_ports ≡ []
Leaves id (sets_public_ports j ports) = (j =s id) ≡ false
Leaves id (deletes j) = (j =s id) ≡ false
Leaves id _ = Unit

module _ (id : String) (made : ℕ) (ports : List (ℤ × ℤ)) where
  abbrev Keeps : InstanceRow → Type 0
  Keeps r = (r.created_at ≡ made) × (r.public_ports ≡ ports)

  abbrev HeldIn : Option InstanceRow → Type 0
  HeldIn none = ⊥
  HeldIn (some r) = Keeps r

  -- The instance has a row with this time of creation and these public ports.
  abbrev pub Held : Tables → Type 0
  Held t = HeldIn (get_instance id t)

  insert-HeldIn :
      (j : String) (r : InstanceRow) (m : List (String × InstanceRow))
      → ((j =s id) ≡ true → Keeps r)
      → HeldIn (lookup id m)
      → HeldIn (lookup id (insert j r m))
  insert-HeldIn j r m k h =
      subst HeldIn (sym (lookup-insert j id r m))
        (if_elim HeldIn (j =s id) (some r) (lookup id m) k (λ t. h))

  updated-Held :
      (j : String) (f : InstanceRow → InstanceRow) (t : Tables) (o : Option InstanceRow)
      → lookup j t.instances ≡ o
      → ((r : InstanceRow) → (j =s id) ≡ true → Keeps r → Keeps (f r))
      → Held t
      → Held (updated j f t o).0
  unfolding updated get_instance
  updated-Held j f t none e k h = h
  updated-Held j f t (some r) e k h =
      insert-HeldIn j (f r) t.instances
        (λ s. k r s (subst HeldIn (ap (λ i. lookup i t.instances) (sym ((=s_iff j id).0 s)) ∙ e) h))
        h

  update-Held :
      (j : String) (f : InstanceRow → InstanceRow) (t : Tables)
      → ((r : InstanceRow) → (j =s id) ≡ true → Keeps r → Keeps (f r))
      → Held t
      → Held (update j f t).0
  unfolding update
  update-Held j f t = updated-Held j f t (lookup j t.instances) refl

  upsert-Keeps :
      (now : ℕ) (inst : InstanceRow) (o : Option InstanceRow)
      → inst.public_ports ≡ []
      → HeldIn o
      → Keeps (upsert now inst o)
  unfolding upsert kept_ports
  upsert-Keeps now inst none e h = absurd h
  upsert-Keeps now inst (some old) e h = (h.0, ap (kept_ports old.public_ports) e ∙ h.1)

  registry_op-Held : (o : RegistryOp) (t : Tables) → Leaves id o → Held t → Held (registry_op o t)
  unfolding registry_op update_state update_vm_id update_stopped_at update_enabled
      update_expose_ports update_public_ports save_instance delete_instance save_secret
      delete_secret_by_name get_instance
  registry_op-Held (saves now inst) t l h =
      insert-HeldIn inst.id (upsert now inst (lookup inst.id t.instances)) t.instances
        (λ s.
          upsert-Keeps now inst (lookup inst.id t.instances) (l s)
            (subst (λ i. HeldIn (lookup i t.instances)) (sym ((=s_iff inst.id id).0 s)) h))
        h
  registry_op-Held (sets_state j state) t l h = update-Held j _ t (λ r s k. k) h
  registry_op-Held (sets_vm_id j vm) t l h = update-Held j _ t (λ r s k. k) h
  registry_op-Held (sets_stopped_at j at) t l h = update-Held j _ t (λ r s k. k) h
  registry_op-Held (sets_enabled j on) t l h = update-Held j _ t (λ r s k. k) h
  registry_op-Held (sets_expose_ports j ps) t l h = update-Held j _ t (λ r s k. k) h
  registry_op-Held (sets_public_ports j ps) t l h =
      update-Held j _ t (λ r s k. absurd (ground (arith, l, s))) h
  registry_op-Held (deletes j) t l h = subst HeldIn (sym (lookup-erase j id t.instances)) (
      if_elim HeldIn (j =s id) none (lookup id t.instances) (λ s. absurd (ground (arith, l, s)))
        (λ s. h))
  registry_op-Held (deletes_secret name) t l h = h
  registry_op-Held (saves_secret s) t l h =
      if_elim (λ (u : Tables). HeldIn (lookup id u.instances)) (has_other_id s t.secrets) _ _
        (λ b. h) (λ b. h)

  -- The creation time and the public ports of an instance in the database stay as they are over any
  -- statements that neither delete the instance nor give it other public ports, among them saves
  -- of it with a new creation time and no public ports, and all statements on other instances.
  pub registry_ops-Held :
      (os : List RegistryOp) (t : Tables) → All (Leaves id) os → Held t → Held (registry_ops os t)
  unfolding registry_ops
  registry_ops-Held [] t l h = h
  registry_ops-Held (o ∷ os) t l h =
      registry_ops-Held os (registry_op o t) l.1 (registry_op-Held o t l.0 h)
