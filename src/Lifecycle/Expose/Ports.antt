-- ===== src/Lifecycle/Expose/Ports.antt =====
-- The list of exposed ports under `expose_port` and `unexpose_port` of internal/lifecycle/manager.go.
use aegisvm.Base.{
  ltb_ℤ, ◌&&◌, ◌=s◌, length-append, ◌+◌, ℕ, List, [], ◌∷◌, ◌++◌, Option, none, some, String, pos,
  Bool, true, false, ◌≡◌, refl, ◌==◌, if◌then◌else◌, length, arith, ◌⊎◌,
}
use aegisvm.Lifecycle.Types.{PortExpose, Capabilities, Instance, running}
use aegisvm.Lifecycle.Expose.{
  ExposeIo, ExposeError, exposed, expose_failed, has_port, remove_port, at_cap, expose_port,
  unexpose_port, router_error, router_failed, add_port, forward, route, refresh, rolled_back,
}

abbrev pub Fresh : List PortExpose → Type 0
Fresh [] = Unit
Fresh (p ∷ ps) = (has_port p.guest_port ps ≡ false) × Fresh ps

-- Undoing the addition of a port that was not there.
pub remove_port-append :
    (g : ℕ) (p : PortExpose) (ps : List PortExpose)
    → has_port g ps ≡ false
    → p.guest_port ≡ g
    → remove_port g (ps ++ (p ∷ [])) ≡ ps
unfolding remove_port has_port
remove_port-append g p [] h e = ground arith
remove_port-append g p (q ∷ ps) h e = ground (arith, remove_port-append g p ps)

pub has_port-append :
    (g : ℕ) (p : PortExpose) (ps : List PortExpose)
    → has_port g (ps ++ (p ∷ [])) ≡ (if p.guest_port == g then true else has_port g ps)
unfolding has_port
has_port-append g p [] = refl
has_port-append g p (q ∷ ps) = ground (arith, has_port-append g p ps)

Fresh-append :
    (p : PortExpose) (ps : List PortExpose)
    → has_port p.guest_port ps ≡ false
    → Fresh ps
    → Fresh (ps ++ (p ∷ []))
unfolding has_port
Fresh-append p [] h f = (refl, tt)
Fresh-append p (q ∷ ps) h f = ground (arith, has_port-append q.guest_port p ps, Fresh-append p ps)

abbrev pub added_port : ℕ → String → PortExpose
added_port g protocol = record { guest_port = g; protocol = protocol }

-- The protocol as it is stored: the empty one is http.
abbrev pub stored : String → String
stored protocol = if protocol =s "" then "http" else protocol

-- An `ExposePort` that fails, at whichever step, leaves the list of exposed ports as it was.
pub expose_port-failed :
    (io : ExposeIo) (g : ℕ) (protocol : String) (i : Instance) (e : ExposeError)
    → (expose_port io g protocol i).1 ≡ expose_failed e
    → (expose_port io g protocol i).0.expose_ports ≡ i.expose_ports
unfolding expose_port
expose_port-failed io g protocol i e h =
    ground (arith, remove_port-append g (added_port g (stored protocol)) i.expose_ports)

-- An `ExposePort` that succeeds either adds exactly the port asked for at the end of a list that did
-- not have it, or found it there, changes nothing and answers the public port the router knows.
pub expose_port-exposed :
    (io : ExposeIo) (g n : ℕ) (protocol : String) (i : Instance)
    → (expose_port io g protocol i).1 ≡ exposed n
    → ((has_port g i.expose_ports ≡ true)
        × ((expose_port io g protocol i).0 ≡ i)
        × (io.known ≡ some n))
      ⊎ ((has_port g i.expose_ports ≡ false)
          × ((expose_port io g protocol i).0.expose_ports
              ≡ i.expose_ports ++ (added_port g (stored protocol) ∷ [])))
unfolding expose_port
expose_port-exposed io g n protocol i h = ground arith

-- More ports than the capability token allows; 0 or less is no ceiling.
abbrev over_cap : Option Capabilities → ℕ → Bool
over_cap none n = false
over_cap (some c) n = ltb_ℤ (pos 0) c.max_expose_ports && ltb_ℤ c.max_expose_ports (pos n)

-- The ports that an instance may have: no guest port twice, and no more than its ceiling.
pub record Permitted (i : Instance) : Type 0 where
  pub fresh : Fresh i.expose_ports
  pub capped : over_cap i.spec.capabilities (length i.expose_ports) ≡ false

at_cap-over_cap :
    (caps : Option Capabilities) (n : ℕ) → at_cap caps n ≡ false → over_cap caps (n + 1) ≡ false
unfolding at_cap
at_cap-over_cap none n h = refl
at_cap-over_cap (some c) n h = ground arith

-- Where no guest port is exposed twice and the token's ceiling on ports is kept, both hold again after
-- an `ExposePort`, whatever it answers.
pub expose_port-Permitted :
    (io : ExposeIo) (g : ℕ) (protocol : String) (i : Instance)
    → Permitted i
    → Permitted (expose_port io g protocol i).0
unfolding expose_port
expose_port-Permitted io g protocol i v =
    let p = added_port g (stored protocol) in
    ground (
      arith,
      at_cap-over_cap i.spec.capabilities (length i.expose_ports),
      Fresh-append p i.expose_ports,
      length-append i.expose_ports (p ∷ []),
      remove_port-append g p i.expose_ports,
    )

-- `UnexposePort` after a successful `ExposePort` of a port that was not exposed succeeds and leaves
-- the list of exposed ports as it was before both.
pub unexpose_port-expose_port :
    (io : ExposeIo) (g n : ℕ) (protocol : String) (i : Instance)
    → has_port g i.expose_ports ≡ false
    → (expose_port io g protocol i).1 ≡ exposed n
    → let (j, reply) = unexpose_port g (expose_port io g protocol i).0 in
      (reply ≡ exposed 0) × (j.expose_ports ≡ i.expose_ports)
unfolding unexpose_port
unexpose_port-expose_port io g n protocol i h e =
    let p = added_port g (stored protocol) in
    ground (
      arith,
      expose_port-exposed io g n protocol i e,
      has_port-append g p i.expose_ports,
      remove_port-append g p i.expose_ports,
    )

-- Where the router refuses the port of a running instance after the VMM has forwarded it (and the
-- VMM's list of endpoints could not be read again), the call fails and the port is taken off the list,
-- but the endpoint of the forward stays.
pub expose_port-leaves_endpoint :
    (io : ExposeIo) (g host : ℕ) (protocol : String) (i : Instance)
    → i.state ≡ running
    → at_cap i.spec.capabilities (length i.expose_ports) ≡ false
    → has_port g i.expose_ports ≡ false
    → io.dynamic ≡ true
    → io.forwarded ≡ some host
    → io.refreshed ≡ none
    → io.router ≡ router_error
    → let (j, reply) = expose_port io g protocol i in
      (reply ≡ expose_failed router_failed)
      × (j.expose_ports ≡ i.expose_ports)
      × (length j.endpoints ≡ length i.endpoints + 1)
unfolding expose_port
expose_port-leaves_endpoint io g host protocol i s a h d f r e = ground (
  arith,
  remove_port-append g (added_port g (stored protocol)) i.expose_ports,
  length-append i.endpoints (
      record { guest_port = g; host_port = host; protocol = stored protocol; backend_addr = "" }
      ∷ []),
)

-- Ports are all that the two calls change of what an instance was made with.
pub expose_port-spec :
    (io : ExposeIo) (g : ℕ) (protocol : String) (i : Instance)
    → (expose_port io g protocol i).0.spec ≡ i.spec
unfolding expose_port add_port forward route refresh rolled_back
expose_port-spec io g protocol i = ground arith

pub unexpose_port-spec : (g : ℕ) (i : Instance) → (unexpose_port g i).0.spec ≡ i.spec
unfolding unexpose_port
unexpose_port-spec g i = ground arith

-- An instance but for its endpoints.
unfoldable pub bare : Instance → Instance
bare i = record i { endpoints = [] }

pub bare-expose_port :
    (io : ExposeIo) (g : ℕ) (protocol : String) (i : Instance) (e : ExposeError)
    → (expose_port io g protocol i).1 ≡ expose_failed e
    → bare (expose_port io g protocol i).0 ≡ bare i
unfolding bare expose_port add_port forward route refresh rolled_back
bare-expose_port io g protocol i e h =
    ground (arith, remove_port-append g (added_port g (stored protocol)) i.expose_ports)
