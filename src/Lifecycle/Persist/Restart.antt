-- ===== src/Lifecycle/Persist/Restart.antt =====
-- Which parts of an instance outlive the daemon, in Lifecycle/Persist.
use aegisvm.Base.{
  ℕ, ◌/◌, ◌≡◌, ◌≢◌, refl, sym, ap, ◌∙◌, subst, List, [], ◌∷◌, Option, none, some, String, ℤ, pos,
  ◌≤ℤ◌, Bool, ◌=s◌, =s_false, lookup, insert, lookup-insert_self, Bool-cases, inl, inr, arith,
}
use aegisvm.Lifecycle.Types.{State, stopped, Env, Capabilities, PortExpose, Instance, Effect}
use aegisvm.Lifecycle.Manager.{Manager, new_instance, create_instance}
use aegisvm.Lifecycle.Persist.{
  CapabilitiesCodec, caps_text, guest_ports, row_of, save_to_registry, second, on_state_change,
  notices, create, http_ports, if_positive, parsed_caps, restored_spec, restored_instance,
  with_times, restore,
}
use aegisvm.Lifecycle.Persist.Notices.{notices_elim}
use aegisvm.Router.{Router}
use aegisvm.Registry.Rows.Lookup.{get_instance-update, get_instance-save_instance}
use aegisvm.Registry.Rows.{
  InstanceRow, Tables, upsert, save_instance, get_instance, update, update_state, update_stopped_at,
}

-- What the documentation of the JSON library promises of a token: it is read back, and its text is not
-- empty.
abbrev pub Reads : CapabilitiesCodec → Option Capabilities → Type 0
Reads codec none = Unit
Reads codec (some c) = (codec.unmarshal (codec.marshal c) ≡ some c) × (codec.marshal c ≢ "")

-- The setup of an instance: what it runs, with what, and for whom.
pub record Setup : Type 0 where
  pub id : String
  pub command : List String
  pub handle_alias : String
  pub image_ref : String
  pub workspace_path : String
  pub memory_mb : ℤ
  pub vcpus : ℤ
  pub secret_keys : List String
  pub kit : String
  pub parent_id : String
  pub capabilities : Option Capabilities
  pub env : Env
  pub enabled : Bool
  pub exposed : List ℤ

unfoldable pub setup : Instance → Setup
setup i = record {
  id = i.spec.id;
  command = i.spec.command;
  handle_alias = i.spec.handle_alias;
  image_ref = i.spec.image_ref;
  workspace_path = i.spec.workspace_path;
  memory_mb = i.spec.memory_mb;
  vcpus = i.spec.vcpus;
  secret_keys = i.spec.secret_keys;
  kit = i.spec.kit;
  parent_id = i.spec.parent_id;
  capabilities = i.spec.capabilities;
  env = i.env;
  enabled = i.enabled;
  exposed = guest_ports i.expose_ports;
}

guest_ports-http_ports :
    (listen : ℕ → ℕ → Option ℕ) (ps : List PortExpose)
    → guest_ports (http_ports listen (guest_ports ps)) ≡ guest_ports ps
guest_ports-http_ports listen [] = refl
guest_ports-http_ports listen (p ∷ ps) =
    ap (λ xs. pos p.guest_port ∷ xs) (guest_ports-http_ports listen ps)

if_positive-pos : (listen : ℕ → ℕ → Option ℕ) (n : ℤ) → pos 0 ≤ℤ n → if_positive listen n ≡ n
if_positive-pos listen n h = ground arith

parsed_caps-caps_text :
    (listen : ℕ → ℕ → Option ℕ) (codec : CapabilitiesCodec) (o : Option Capabilities)
    → Reads codec o
    → parsed_caps listen codec (caps_text codec o) ≡ o
unfolding ◌=s◌
parsed_caps-caps_text listen codec none v = refl
parsed_caps-caps_text listen codec (some c) v = rw (=s_false (codec.marshal c) "" v.1) v.0

module _ (listen : ℕ → ℕ → Option ℕ) (codec : CapabilitiesCodec) where
  -- The setup that a row is restored to.
  unfoldable pub row_setup : InstanceRow → Setup
  row_setup row = setup (restored_instance listen codec 0 row)

  setup-restored_instance :
      (now : ℕ) (row : InstanceRow) → setup (restored_instance listen codec now row) ≡ row_setup row
  unfolding row_setup setup restored_instance restored_spec new_instance
  setup-restored_instance now row = refl

  row_setup-row_of :
      (i : Instance)
      → Reads codec i.spec.capabilities
      → pos 0 ≤ℤ i.spec.memory_mb
      → pos 0 ≤ℤ i.spec.vcpus
      → row_setup (row_of codec i) ≡ setup i
  unfolding row_setup setup restored_instance restored_spec new_instance row_of
  row_setup-row_of i v m c =
      rw
        (
          if_positive-pos listen i.spec.memory_mb m,
          if_positive-pos listen i.spec.vcpus c,
          parsed_caps-caps_text listen codec i.spec.capabilities v,
          guest_ports-http_ports listen i.expose_ports,
        )
        refl

  row_setup-upsert :
      (now : ℕ) (row : InstanceRow) (o : Option InstanceRow)
      → row_setup (upsert now row o) ≡ row_setup row
  unfolding row_setup setup restored_instance restored_spec new_instance upsert
  row_setup-upsert now row none = refl
  row_setup-upsert now row (some old) = refl

  if_positive-positive : (n : ℤ) → pos 0 ≤ℤ if_positive listen n
  if_positive-positive n = ground arith

  -- The registry has a row of the setup.
  abbrev pub HasSetup : Setup → Tables → Type 0
  HasSetup s t = (row : InstanceRow) × (get_instance s.id t ≡ some row) × (row_setup row ≡ s)

  update-HasSetup :
      (id : String) (f : InstanceRow → InstanceRow) (s : Setup) (t : Tables)
      → ((r : InstanceRow) → row_setup (f r) ≡ row_setup r)
      → HasSetup s t
      → HasSetup s (update id f t).0
  update-HasSetup id f s t k (row, h, e) = elim (Bool-cases (id =s s.id)) [
    | inl u ↦ (f row, get_instance-update id s.id f t ∙ rw (u, h) refl, k row ∙ e)
    | inr u ↦ (row, get_instance-update id s.id f t ∙ rw u h, e)
  ]

  on_state_change-HasSetup :
      (now : ℕ) (id : String) (st : State) (s : Setup) (t : Tables)
      → HasSetup s t
      → HasSetup s (on_state_change now id st t)
  unfolding on_state_change update_state update_stopped_at row_setup setup restored_instance
      restored_spec new_instance
  on_state_change-HasSetup now id st s t h =
      update-HasSetup id _ s _ (λ r. refl) (update-HasSetup id _ s t (λ r. refl) h)

  notices-HasSetup :
      (now : ℕ) (es : List (String × Effect)) (s : Setup) (t : Tables)
      → HasSetup s t
      → HasSetup s (notices now es t)
  notices-HasSetup now es s t h =
      notices_elim (HasSetup s) now (λ id st u k. on_state_change-HasSetup now id st s u k) es t h

  save_to_registry-HasSetup :
      (now : ℕ) (i : Instance) (s : Setup) (t : Tables)
      → row_setup (row_of codec i) ≡ s
      → HasSetup s (save_to_registry codec now i t)
  unfolding save_to_registry row_setup setup restored_instance new_instance
  save_to_registry-HasSetup now i s t h =
      let row = row_of codec i in
      let new = upsert (now / second) row (lookup row.id t.instances) in
      (
        new,
        subst (λ k. get_instance k (save_instance (now / second) row t) ≡ some new)
            (ap (λ (x : Setup). x.id) h) (get_instance-save_instance (now / second) row t),
        row_setup-upsert (now / second) row (lookup row.id t.instances) ∙ h,
      )

  create-HasSetup :
      (now : ℕ) (i : Instance) (s : Setup) (m : Manager) (r : Router) (t : Tables)
      → row_setup (row_of codec i) ≡ s
      → HasSetup s (create listen codec now i m r t).2
  unfolding create
  create-HasSetup now i s m r t h = save_to_registry-HasSetup now i s _ h

  capabilities-restored_instance :
      (now : ℕ) (row : InstanceRow) (s : Setup)
      → row_setup row ≡ s
      → (restored_instance listen codec now row).spec.capabilities ≡ s.capabilities
  unfolding restored_instance restored_spec new_instance row_setup setup
  capabilities-restored_instance now row s h = ap (λ (x : Setup). x.capabilities) h

  memory_mb-restored_instance :
      (now : ℕ) (row : InstanceRow)
      → pos 0 ≤ℤ (restored_instance listen codec now row).spec.memory_mb
  unfolding restored_instance restored_spec new_instance
  memory_mb-restored_instance now row = if_positive-positive row.memory_mb

  vcpus-restored_instance :
      (now : ℕ) (row : InstanceRow) → pos 0 ≤ℤ (restored_instance listen codec now row).spec.vcpus
  unfolding restored_instance restored_spec new_instance
  vcpus-restored_instance now row = if_positive-positive row.vcpus

  restore-HasSetup :
      (now : ℕ) (row : InstanceRow) (s : Setup) (m : Manager) (r : Router) (t : Tables)
      → Reads codec s.capabilities
      → row_setup row ≡ s
      → HasSetup s (restore listen codec now row m r t).2
  unfolding restore
  restore-HasSetup now row s m r t v h =
      create-HasSetup now (restored_instance listen codec now row) s m r t (
        row_setup-row_of (restored_instance listen codec now row)
          (subst (Reads codec) (sym (capabilities-restored_instance now row s h)) v)
          (memory_mb-restored_instance now row) (vcpus-restored_instance now row)
        ∙ (setup-restored_instance now row ∙ h))

  setup-with_times :
      (now : ℕ) (row : InstanceRow) (i : Instance) → setup (with_times listen now row i) ≡ setup i
  unfolding setup with_times
  setup-with_times now row i = refl

  lookup-create_instance :
      (id : String) (m : Manager) (i : Instance)
      → i.spec.id ≡ id
      → lookup id (create_instance m i).instances ≡ some i
  unfolding create_instance
  lookup-create_instance id m i h =
      subst (λ k. lookup k (insert i.spec.id i m.instances) ≡ some i) h
        (lookup-insert_self i.spec.id i m.instances)

  -- What is restored from a row.
  restored-idle :
      (now : ℕ) (row : InstanceRow)
      → let j = with_times listen now row (restored_instance listen codec now row) in
        (j.state ≡ stopped) × (j.handle ≡ none)
  unfolding with_times restored_instance new_instance
  restored-idle now row = (refl, refl)

  id-setup : (i : Instance) → (setup i).id ≡ i.spec.id
  unfolding setup
  id-setup i = refl

  capabilities-setup : (i : Instance) → i.spec.capabilities ≡ (setup i).capabilities
  unfolding setup
  capabilities-setup i = refl

  restore-found :
      (now : ℕ) (i : Instance) (row : InstanceRow) (m : Manager) (r : Router) (t : Tables)
      → row_setup row ≡ setup i
      → (j : Instance) × (lookup i.spec.id (restore listen codec now row m r t).0.instances
          ≡ some j)
        × (setup j ≡ setup i)
        × (j.state ≡ stopped)
        × (j.handle ≡ none)
  unfolding restore
  restore-found now i row m r t h =
      let j0 = restored_instance listen codec now row in
      let j = with_times listen now row j0 in
      let same : setup j ≡ setup i =
        setup-with_times now row j0 ∙ (setup-restored_instance now row ∙ h) in
      let (idle, no_vm) = restored-idle now row in
      (
        j,
        lookup-create_instance i.spec.id _ j
            (sym (id-setup j) ∙ (ap (λ (x : Setup). x.id) same ∙ id-setup i)),
        same,
        idle,
        no_vm,
      )

  -- An instance outlives the daemon: when it is created, and any effects of calls have been told to
  -- the registry, and the daemon then restores the row of its id, the manager has an instance of that
  -- id with the same setup (command, handle, image, workspace, memory, CPUs, secret keys, kit, parent,
  -- capabilities, variables, guest ports, and whether it is enabled), stopped and without a VM, and
  -- the registry has a row that is restored to the same setup again. The memory and the CPUs are not
  -- negative, and a token is read back as it was written.
  pub restore-create :
      (now later : ℕ) (i : Instance) (m m1 : Manager) (r r1 : Router) (t : Tables)
      (es : List (String × Effect)) (row : InstanceRow)
      → Reads codec i.spec.capabilities
      → pos 0 ≤ℤ i.spec.memory_mb
      → pos 0 ≤ℤ i.spec.vcpus
      → get_instance i.spec.id (notices now es (create listen codec now i m r t).2) ≡ some row
      → let r2 =
          restore listen codec later row m1 r1
            (notices now es (create listen codec now i m r t).2) in
        ((j : Instance) × (lookup i.spec.id r2.0.instances ≡ some j)
          × (setup j ≡ setup i)
          × (j.state ≡ stopped)
          × (j.handle ≡ none))
        × HasSetup (setup i) r2.2
  restore-create now later i m m1 r r1 t es row v mem cpu h =
      let s0 = row_setup-row_of i v mem cpu in
      let (row0, h0, e0) =
        notices-HasSetup now es (setup i) _ (create-HasSetup now i (setup i) m r t s0) in
      let found : get_instance i.spec.id (notices now es (create listen codec now i m r t).2)
          ≡ some row0 =
        subst (λ k. get_instance k (notices now es (create listen codec now i m r t).2) ≡ some row0)
          (id-setup i) h0 in
      let same : row0 ≡ row = cc in
      let kept : row_setup row ≡ setup i = ap row_setup (sym same) ∙ e0 in
      (
        restore-found later i row m1 r1 _ kept,
        restore-HasSetup later row (setup i) m1 r1 _ (subst (Reads codec) (capabilities-setup i) v)
            kept,
      )
