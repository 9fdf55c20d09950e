-- ===== src/Lifecycle/Expose.antt =====
-- internal/lifecycle/manager.go: `ExposePort` and `UnexposePort` on one instance. What the VMM and
-- the router callback answer is the argument `ExposeIo`.
pub mod Ports
use aegisvm.Base.{
  ℕ, ◌+◌, List, [], ◌∷◌, ◌++◌, Option, none, some, String, ℤ, pos, Bool, true, false, ◌&&◌, not,
  ◌==◌, if◌then◌else◌, ◌=s◌, length, leb_ℤ, ltb_ℤ,
}
use aegisvm.Lifecycle.Types.{PortExpose, HostEndpoint, Capabilities, Instance, is_running}

pub data RouterReply : Type 0 where
  no_router : RouterReply
  allocated : ℕ → RouterReply
  router_error : RouterReply

pub record ExposeIo : Type 0 where
  -- The public port that the router already has for the guest port.
  pub known : Option ℕ
  -- Whether the backend can expose ports at run time, and the host port that it gives.
  pub dynamic : Bool
  pub forwarded : Option ℕ
  pub refreshed : Option (List HostEndpoint)
  pub router : RouterReply

pub data ExposeError : Type 0 where
  cap_reached already_exposed not_supported vmm_failed router_failed not_exposed : ExposeError

pub data ExposeReply : Type 0 where
  exposed : ℕ → ExposeReply
  expose_failed : ExposeError → ExposeReply

unfoldable pub has_port : ℕ → List PortExpose → Bool
has_port g [] = false
has_port g (p ∷ ps) = if p.guest_port == g then true else has_port g ps

-- The rollback loop, and that of `UnexposePort`: the first entry of the guest port goes.
unfoldable pub remove_port : ℕ → List PortExpose → List PortExpose
remove_port g [] = []
remove_port g (p ∷ ps) = if p.guest_port == g then ps else p ∷ remove_port g ps

unfoldable pub remove_endpoint : ℕ → List HostEndpoint → List HostEndpoint
remove_endpoint g [] = []
remove_endpoint g (p ∷ ps) = if p.guest_port == g then ps else p ∷ remove_endpoint g ps

-- Whether the capability token's ceiling is reached; 0 or less is no ceiling.
unfoldable pub at_cap : Option Capabilities → ℕ → Bool
at_cap none n = false
at_cap (some c) n = ltb_ℤ (pos 0) c.max_expose_ports && leb_ℤ c.max_expose_ports (pos n)

rolled_back : ℕ → Instance → Instance
rolled_back g inst = record inst { expose_ports = remove_port g inst.expose_ports }

-- The router's part, last.
route : RouterReply → ℕ → Instance → Instance × ExposeReply
unfolding rolled_back
route no_router g inst = (inst, exposed 0)
route (allocated p) g inst = (inst, exposed p)
route router_error g inst = (rolled_back g inst, expose_failed router_failed)

-- The endpoints are read again from the VMM; failing that, the new one is added.
refresh : Option (List HostEndpoint) → HostEndpoint → Instance → Instance
refresh none e inst = record inst { endpoints = inst.endpoints ++ (e ∷ []) }
refresh (some es) e inst = record inst { endpoints = es }

-- The VMM's part, for a running instance.
forward : ExposeIo → ℕ → String → Instance → Option ℕ → Instance × ExposeReply
unfolding route refresh rolled_back
forward io g protocol inst none = (rolled_back g inst, expose_failed vmm_failed)
forward io g protocol inst (some host) = route io.router g (
    refresh io.refreshed
      (record { guest_port = g; host_port = host; protocol = protocol; backend_addr = "" }) inst)

add_port : ExposeIo → ℕ → String → Instance → Instance × ExposeReply
unfolding forward route rolled_back
add_port io g protocol inst =
    let added : Instance = record inst {
      expose_ports = inst.expose_ports ++ (record { guest_port = g; protocol = protocol } ∷ []);
    } in
    if is_running inst.state
    then if io.dynamic
      then forward io g protocol added io.forwarded
      else (rolled_back g added, expose_failed not_supported)
    else route io.router g added

again : Option ℕ → ExposeReply
again none = expose_failed already_exposed
again (some p) = exposed p

unfoldable pub expose_port : ExposeIo → ℕ → String → Instance → Instance × ExposeReply
unfolding add_port again
expose_port io g protocol inst =
    if at_cap inst.spec.capabilities (length inst.expose_ports)
    then (inst, expose_failed cap_reached)
    else if has_port g inst.expose_ports
    then (inst, again io.known)
    else add_port io g (if protocol =s "" then "http" else protocol) inst

unfoldable pub unexpose_port : ℕ → Instance → Instance × ExposeReply
unexpose_port g inst =
    if has_port g inst.expose_ports
    then (
      record inst {
        expose_ports = remove_port g inst.expose_ports;
        endpoints = remove_endpoint g inst.endpoints;
      },
      exposed 0,
    )
    else (inst, expose_failed not_exposed)
