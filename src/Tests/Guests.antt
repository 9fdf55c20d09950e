-- ===== src/Tests/Guests.antt =====
-- Concrete guests of internal/lifecycle/guest.go and ports of manager.go.
use aegisvm.Base.{
  ◌≤◌, [], ◌∷◌, none, some, pos, pos_part, true, false, not, ◌&&◌, ◌≡◌, refl, arith, length, lookup,
  ◌<ℤ◌, ◌+ℤ◌, ◌=s◌,
}
use aegisvm.Lifecycle.Types.{Capabilities, Instance}
use aegisvm.Lifecycle.Manager.{Manager, create_instance, children}
use aegisvm.Lifecycle.Guest.{
  SpawnRequest, spawned, over, allows_image, child_capabilities, child_instance, spawn_check,
  guest_spawn, is_empty,
}
use aegisvm.Lifecycle.Guest.Attenuation.{
  positive, guest_spawn-spawned, Lineage, here, next, Lineage-bounded,
}
use aegisvm.Lifecycle.Expose.{
  ExposeIo, exposed, expose_failed, has_port, at_cap, allocated, router_error, router_failed,
  expose_port,
}
use aegisvm.Lifecycle.Expose.Ports.{Permitted, expose_port-Permitted}
use aegisvm.Tests.Life.{cfg, up}

abbrev token : Capabilities
token = record {
  parent_id = "inst-1";
  issued_at = pos 0;
  expire_at = pos 0;
  spawn = true;
  spawn_depth = pos 2;
  max_children = pos 3;
  allowed_images = "*" ∷ [];
  max_memory_mb = pos 256;
  max_vcpus = pos 1;
  allowed_secrets = [];
  max_expose_ports = pos 2;
}

abbrev manager : Manager
manager = record { cfg = cfg; instances = ("inst-1", up) ∷ [] }

abbrev request : SpawnRequest
request = record {
  handle = "";
  command = "sh" ∷ [];
  image_ref = "alpine";
  workspace = "/etc";
  exposes = 80 ∷ [];
  secrets = [];
  memory_mb = pos 0;
  vcpus = pos 1;
  env = [];
}

abbrev child : Instance
child = child_instance up token request "inst-2" 100

abbrev grandchild : Instance
grandchild = child_instance up (child_capabilities token) request "inst-3" 200

abbrev after : Manager
after = create_instance manager child

spawns : guest_spawn manager up token request "inst-2" 100 ≡ spawned after child
unfolding guest_spawn spawn_check allows_image children ◌=s◌
spawns = refl

spawns_again :
    guest_spawn manager up (child_capabilities token) request "inst-3" 200
    ≡ spawned (create_instance manager grandchild) grandchild
unfolding guest_spawn spawn_check allows_image children child_capabilities ◌=s◌
spawns_again = refl

guest_spawn-spawned_example :
    (token.spawn ≡ true)
    × (pos 0 <ℤ token.spawn_depth)
    × (child.spec.memory_mb ≡ positive request.memory_mb)
    × (child.spec.vcpus ≡ positive request.vcpus)
    × (over child.spec.memory_mb token.max_memory_mb ≡ false)
    × (over child.spec.vcpus token.max_vcpus ≡ false)
    × (over (pos (length child.expose_ports)) token.max_expose_ports ≡ false)
    × ((not (is_empty token.allowed_images)
          && not (allows_image token.allowed_images child.spec.image_ref))
        ≡ false)
    × (child.spec.parent_id ≡ "inst-1")
    × (child.spec.capabilities ≡ some (child_capabilities token))
    × ((child_capabilities token).spawn_depth +ℤ pos 1 ≡ token.spawn_depth)
    × (after ≡ create_instance manager child)
guest_spawn-spawned_example =
    guest_spawn-spawned manager after up child token request "inst-2" 100 spawns

two_spawns : Lineage token 2
two_spawns = next manager after up child token request "inst-2" 100 1 spawns (
    next manager (create_instance manager grandchild) up grandchild (child_capabilities token)
      request "inst-3" 200 0 spawns_again (here (child_capabilities (child_capabilities token))))

Lineage-bounded_example : 2 ≤ pos_part token.spawn_depth
Lineage-bounded_example = Lineage-bounded two_spawns

unused : lookup "inst-2" manager.instances ≡ none
unfolding lookup ◌=s◌
unused = refl

abbrev io : ExposeIo
io = record {
  known = none;
  dynamic = true;
  forwarded = some 9000;
  refreshed = none;
  router = allocated 8080;
}

abbrev broken : ExposeIo
broken = record io { router = router_error }

abbrev capped : Instance
capped = record up { spec = record up.spec { capabilities = some token } }

capped-Permitted : Permitted capped
capped-Permitted = ground arith

expose_port-Permitted_example : Permitted (expose_port io 80 "http" capped).0
expose_port-Permitted_example = expose_port-Permitted io 80 "http" capped capped-Permitted

succeeds : (expose_port io 80 "http" capped).1 ≡ exposed 8080
unfolding expose_port at_cap has_port
succeeds = ground arith

fails : (expose_port broken 80 "http" capped).1 ≡ expose_failed router_failed
unfolding expose_port at_cap has_port
fails = ground arith

no_port : has_port 80 capped.expose_ports ≡ false
unfolding has_port
no_port = refl

below_cap : at_cap capped.spec.capabilities (length capped.expose_ports) ≡ false
unfolding at_cap
below_cap = refl

-- A parent that is up, with a child that is up.
abbrev junior : Instance
junior = record up { spec = record up.spec { id = "inst-2"; parent_id = "inst-1" } }

abbrev family : Manager
family = record { cfg = cfg; instances = ("inst-1", up) ∷ ("inst-2", junior) ∷ [] }

finds_parent : lookup "inst-1" family.instances ≡ some up
unfolding lookup ◌=s◌
finds_parent = refl
