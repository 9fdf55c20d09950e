-- ===== src/Lifecycle/Guest/Attenuation.antt =====
-- What `guest.spawn` (internal/lifecycle/guest.go) hands on, against the parent's token.
use text.Mathlib.Text.{starts_with}
use aegisvm.Base.{
  ◌∙◌, ℕ, suc, ◌+◌, ◌≤◌, List, [], ◌∷◌, map, none, some, String, pos, Bool, true, false, not, ◌&&◌,
  ◌≡◌, refl, arith, if◌then◌else◌, length, ltb_ℤ, leb_ℤ, ℤ, ◌≤ℤ◌, ◌<ℤ◌, pos_part, lookup, insert,
  =s_iff, ap, ◌+ℤ◌,
}
use aegisvm.Lifecycle.Types.{Capabilities, Instance, PortExpose, Config}
use aegisvm.Lifecycle.Boot.{vm_config}
use aegisvm.Lifecycle.Manager.{Manager, create_instance, children, new_instance}
use aegisvm.Lifecycle.Guest.{
  is_empty, not_permitted, depth_exhausted, no_command, memory_over, vcpus_over, exposes_over,
  image_not_allowed, too_many_children, invalid_handle, SpawnRequest, spawned, over, image_of,
  allows_image, child_capabilities, child_instance, spawn_check, guest_spawn, host_workspace,
}

length-map :
    (ps : List ℕ)
    → length (map {B = PortExpose} (λ p. record { guest_port = p; protocol = "http" }) ps)
      ≡ length ps
length-map [] = refl
length-map (p ∷ ps) = ap suc (length-map ps)

-- The chain of checks, over what they test: it comes to its end only if none of them fires.
chain_passed :
    (a b c d e f g h k : Bool)
    → (if a
        then some not_permitted
        else if b
        then some depth_exhausted
        else if c
        then some no_command
        else if d
        then some memory_over
        else if e
        then some vcpus_over
        else if f
        then some exposes_over
        else if g
        then some image_not_allowed
        else if h
        then some too_many_children
        else if k
        then some invalid_handle
        else none)
      ≡ none
    → (a ≡ false)
      × (b ≡ false)
      × (d ≡ false)
      × (e ≡ false)
      × (f ≡ false)
      × (g ≡ false)
      × (h ≡ false)
chain_passed a b c d e f g h k p = ground arith

-- What a spawn that succeeds has passed.
record Passed (m : Manager) (parent : String) (token : Capabilities) (req : SpawnRequest)
    : Type 0 where
  permitted : token.spawn ≡ true
  deep : leb_ℤ token.spawn_depth (pos 0) ≡ false
  memory : over req.memory_mb token.max_memory_mb ≡ false
  vcpus : over req.vcpus token.max_vcpus ≡ false
  ports : over (pos (length req.exposes)) token.max_expose_ports ≡ false
  image :
      (not (is_empty token.allowed_images)
        && not (allows_image token.allowed_images (image_of req)))
      ≡ false
  room :
      (ltb_ℤ (pos 0) token.max_children
        && leb_ℤ token.max_children (pos (length (children parent m.instances))))
      ≡ false

spawn_check-Passed :
    (m : Manager) (parent : String) (token : Capabilities) (req : SpawnRequest)
    → spawn_check m parent token req ≡ none
    → Passed m parent token req
unfolding spawn_check
spawn_check-Passed m parent token req h =
    let (a, b, d, e, f, g, k) = chain_passed _ _ _ _ _ _ _ _ _ h in
    record {
      permitted = ground (arith, a);
      deep = b;
      memory = d;
      vcpus = e;
      ports = f;
      image = g;
      room = k;
    }

module _ (m m' : Manager) (parent i : Instance) (token : Capabilities) (req : SpawnRequest)
    (id : String) (now : ℕ) (h : guest_spawn m parent token req id now ≡ spawned m' i) where
  spawned-Passed : Passed m parent.spec.id token req
  unfolding guest_spawn
  spawned-Passed = spawn_check-Passed m parent.spec.id token req (ground arith)

  spawned-child : i ≡ child_instance parent token req id now
  unfolding guest_spawn
  spawned-child = ground arith

  spawned-manager : m' ≡ create_instance m i
  unfolding guest_spawn
  spawned-manager = ground arith

-- A number that is asked for, or else 0.
abbrev pub positive : ℤ → ℤ
positive x = if ltb_ℤ (pos 0) x then x else pos 0

-- A spawn that succeeds has a token that permits it, with depth left. The child's record has the
-- memory and the processors that the request asks for, or 0 (which leaves it to the host's default)
-- where that is not positive, and these numbers are no more than the token's positive ceilings. The number of the child's ports is no more than the token's positive
-- ceiling, its image is allowed where the token names any, its parent is the caller, its own token is
-- one level less deep, and it is added to the manager.
pub guest_spawn-spawned :
    (m m' : Manager) (parent i : Instance) (token : Capabilities) (req : SpawnRequest) (id : String)
    (now : ℕ)
    → guest_spawn m parent token req id now ≡ spawned m' i
    → (token.spawn ≡ true)
      × (pos 0 <ℤ token.spawn_depth)
      × (i.spec.memory_mb ≡ positive req.memory_mb)
      × (i.spec.vcpus ≡ positive req.vcpus)
      × (over i.spec.memory_mb token.max_memory_mb ≡ false)
      × (over i.spec.vcpus token.max_vcpus ≡ false)
      × (over (pos (length i.expose_ports)) token.max_expose_ports ≡ false)
      × ((not (is_empty token.allowed_images)
            && not (allows_image token.allowed_images i.spec.image_ref))
          ≡ false)
      × (i.spec.parent_id ≡ parent.spec.id)
      × (i.spec.capabilities ≡ some (child_capabilities token))
      × ((child_capabilities token).spawn_depth +ℤ pos 1 ≡ token.spawn_depth)
      × (m' ≡ create_instance m i)
unfolding child_instance new_instance child_capabilities
guest_spawn-spawned m m' parent i token req id now h =
    let p = spawned-Passed m m' parent i token req id now h in
    rw (spawned-child m m' parent i token req id now h) (
      p.permitted,
      ground (arith, p.deep),
      refl,
      refl,
      ground (arith, p.memory),
      ground (arith, p.vcpus),
      rw length-map p.ports,
      p.image,
      refl,
      refl,
      ground arith,
      spawned-manager m m' parent i token req id now h
          ∙ ap (create_instance m) (spawned-child m m' parent i token req id now h),
    )

-- A chain of `n` spawns in which each child spawns the next with the token that it was given.
pub data Lineage : Capabilities → ℕ → Type 0 where
  here : (t : Capabilities) → Lineage t 0
  next :
      (m m' : Manager) (parent i : Instance) (t : Capabilities) (req : SpawnRequest) (id : String)
      (now n : ℕ)
      → guest_spawn m parent t req id now ≡ spawned m' i
      → Lineage (child_capabilities t) n
      → Lineage t (suc n)

-- In a chain of spawns in which each uses the token that the one before it minted for its child, no
-- more spawns succeed than the depth in the first token.
pub Lineage-bounded : {t : Capabilities} {n : ℕ} → Lineage t n → n ≤ pos_part t.spawn_depth
unfolding child_capabilities
Lineage-bounded (here t) = omega arith
Lineage-bounded (next m m' parent i t req id now n h l) =
    ground (arith, (spawned-Passed m m' parent i t req id now h).deep, Lineage-bounded l)

children-insert :
    (p id : String) (i : Instance) (m : List (String × Instance))
    → lookup id m ≡ none
    → length (children p (insert id i m)) ≤ length (children p m) + 1
unfolding children insert lookup
children-insert p id i [] h = ground arith
children-insert p id i ((k, j) ∷ m) h = ground (arith, children-insert p id i m)

-- A spawn that succeeds, under an id that is not in use and with a positive ceiling on children,
-- leaves the parent with no more children than that ceiling.
pub children-guest_spawn :
    (m m' : Manager) (parent i : Instance) (token : Capabilities) (req : SpawnRequest) (id : String)
    (now : ℕ)
    → guest_spawn m parent token req id now ≡ spawned m' i
    → lookup id m.instances ≡ none
    → pos 0 <ℤ token.max_children
    → pos (length (children parent.spec.id m'.instances)) ≤ℤ token.max_children
unfolding create_instance child_instance new_instance
children-guest_spawn m m' parent i token req id now h f c =
    let p = spawned-Passed m m' parent i token req id now h in
    rw (spawned-manager m m' parent i token req id now h) (
      ground (
        arith,
        p.room,
        ap (λ j. j.spec.id) (spawned-child m m' parent i token req id now h),
        children-insert parent.spec.id id i m.instances,
      ))

-- The VM of a child that was spawned with no memory size in the request is given the default size,
-- whatever the ceiling in the token.
pub vm_config-guest_spawn :
    (cfg : Config) (m m' : Manager) (parent i : Instance) (token : Capabilities)
    (req : SpawnRequest) (id rootfs : String) (now : ℕ)
    → guest_spawn m parent token req id now ≡ spawned m' i
    → req.memory_mb ≡ pos 0
    → (vm_config cfg i rootfs).memory_mb ≡ cfg.default_memory_mb
unfolding vm_config child_instance new_instance
vm_config-guest_spawn cfg m m' parent i token req id rootfs now h z =
    rw (spawned-child m m' parent i token req id now h) (ground arith)

-- When a spawn succeeds and the workspace in the request does not begin with /workspace, the child's
-- workspace on the host is the path that the guest wrote.
pub host_workspace-guest_spawn :
    (m m' : Manager) (parent i : Instance) (token : Capabilities) (req : SpawnRequest) (id : String)
    (now : ℕ)
    → guest_spawn m parent token req id now ≡ spawned m' i
    → starts_with req.workspace "/workspace" ≡ false
    → i.spec.workspace_path ≡ req.workspace
unfolding host_workspace child_instance new_instance
host_workspace-guest_spawn m m' parent i token req id now h w =
    rw (spawned-child m m' parent i token req id now h) (ground (arith, =s_iff req.workspace ""))
