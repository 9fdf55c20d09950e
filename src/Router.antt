-- ===== src/Router.antt =====
-- internal/router/router.go: the public ports of the instances. What `net.Listen` answers is an
-- argument. Relaying and HTTP are not modelled.
pub mod Listeners
pub mod Promises
use aegisvm.Base.{
  ℕ, List, [], ◌∷◌, ◌++◌, Option, none, some, String, Bool, true, false, ◌==◌, if◌then◌else◌,
  lookup, insert, erase,
}

pub record PortProxy : Type 0 where
  pub guest_port : ℕ
  pub public_port : ℕ
  pub protocol : String

-- The port table of `Router`, and the ports that were closed, in order.
pub record Router : Type 0 where
  pub port_proxies : List (String × List PortProxy)
  pub closed : List ℕ

abbrev pub new_router : Router
new_router = record { port_proxies = []; closed = [] }

abbrev pub or_nil : Option (List PortProxy) → List PortProxy
or_nil none = []
or_nil (some ps) = ps

-- `r.portProxies[instanceID]`
abbrev pub proxies_of : String → Router → List PortProxy
proxies_of id r = or_nil (lookup id r.port_proxies)

-- The loop that looks for a guest port.
unfoldable pub public_of : ℕ → List PortProxy → Option ℕ
public_of g [] = none
public_of g (p ∷ ps) = if p.guest_port == g then some p.public_port else public_of g ps

-- The second critical section of `AllocatePort`.
unfoldable pub add_proxy : String → PortProxy → Router → Router
add_proxy id p r = record r {
  port_proxies = insert id (proxies_of id r ++ (p ∷ [])) r.port_proxies;
}

-- The listener is made outside the lock.
listen_for : String → ℕ → String → Option ℕ → Router → Router × Option ℕ
unfolding add_proxy
listen_for id g protocol none r = (r, none)
listen_for id g protocol (some port) r =
    (add_proxy id (record { guest_port = g; public_port = port; protocol = protocol }) r, some port)

allocate_found : String → ℕ → String → Option ℕ → Router → Option ℕ → Router × Option ℕ
unfolding listen_for
allocate_found id g protocol listened r (some existing) = (r, some existing)
allocate_found id g protocol listened r none = listen_for id g protocol listened r

-- `AllocatePort`
unfoldable pub allocate_port : String → ℕ → String → Option ℕ → Router → Router × Option ℕ
unfolding allocate_found
allocate_port id g protocol listened r =
    allocate_found id g protocol listened r (public_of g (proxies_of id r))

abbrev publics : List PortProxy → List ℕ
publics [] = []
publics (p ∷ ps) = p.public_port ∷ publics ps

-- `FreeAllPorts`
unfoldable pub free_all_ports : String → Router → Router
free_all_ports id r = record r {
  port_proxies = erase id r.port_proxies;
  closed = r.closed ++ publics (proxies_of id r);
}

unfoldable pub without_port : ℕ → List PortProxy → List PortProxy
without_port g [] = []
without_port g (p ∷ ps) = let rest = without_port g ps in if p.guest_port == g then ps else p ∷ rest

free_found : String → ℕ → Router → Option ℕ → Router
unfolding without_port
free_found id g r none = r
free_found id g r (some port) = record r {
  port_proxies = insert id (without_port g (proxies_of id r)) r.port_proxies;
  closed = r.closed ++ (port ∷ []);
}

-- `FreePort`
unfoldable pub free_port : String → ℕ → Router → Router
unfolding free_found
free_port id g r = free_found id g r (public_of g (proxies_of id r))

-- `GetPublicPort`
unfoldable pub get_public_port : String → ℕ → Router → Option ℕ
get_public_port id g r = public_of g (proxies_of id r)

-- `GetAllPublicPorts`, with the entries of the table for its endpoints.
unfoldable pub get_all_public_ports : String → Router → List PortProxy
get_all_public_ports id r = proxies_of id r

abbrev ids_of : List (String × List PortProxy) → List String
ids_of [] = []
ids_of ((id, ps) ∷ m) = id ∷ ids_of m

free_each : List String → Router → Router
unfolding free_all_ports
free_each [] r = r
free_each (id ∷ ids) r = free_each ids (free_all_ports id r)

-- `Stop`, before the server shuts down.
unfoldable pub stop : Router → Router
unfolding free_each
stop r = free_each (ids_of r.port_proxies) r

pub data RouterOp : Type 0 where
  allocates : String → ℕ → String → Option ℕ → RouterOp
  frees : String → ℕ → RouterOp
  frees_all : String → RouterOp
  stops : RouterOp

unfoldable pub route_op : RouterOp → Router → Router
route_op (allocates id g protocol listened) r = (allocate_port id g protocol listened r).0
route_op (frees id g) r = free_port id g r
route_op (frees_all id) r = free_all_ports id r
route_op stops r = stop r

unfoldable pub route_ops : List RouterOp → Router → Router
unfolding route_op
route_ops [] r = r
route_ops (o ∷ os) r = route_ops os (route_op o r)
