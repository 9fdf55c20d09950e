-- ===== src/Router/Promises.antt =====
-- The public ports of internal/router/router.go against a direct reading of the calls.
use aegisvm.Base.{
  ℕ, ◌≡◌, refl, ap, sym, subst, ◌∙◌, List, [], ◌∷◌, ◌++◌, Option, none, some, String, Bool, true,
  false, ◌&&◌, ◌==◌, ◌=s◌, =s_iff, =s_refl, if◌then◌else◌, if_cases, if_elim, Bool-cases, inl, inr,
  lookup, arith,
}
use aegisvm.Router.{
  PortProxy, Router, new_router, or_nil, proxies_of, public_of, add_proxy, listen_for,
  allocate_found, allocate_port, free_all_ports, without_port, free_found, free_port,
  get_public_port, ids_of, free_each, stop, RouterOp, allocates, frees, frees_all, stops, route_op,
  route_ops,
}
use aegisvm.Router.Listeners.{
  IsSingle, public_of-snoc, public_of-snoc_some, IsSingle-snoc, public_of-without_port,
  IsSingle-without_port, or_nil-insert, or_nil-erase,
}

-- The port that the calls so far promise to a guest port of an instance: the first that was listened
-- on since it was last freed.
abbrev pub promised_step : String → ℕ → RouterOp → Option ℕ → Option ℕ
promised_step id g (allocates i h protocol listened) none =
    if (i =s id) && (h == g) then listened else none
promised_step id g (allocates i h protocol listened) (some port) = some port
promised_step id g (frees i h) o = if (i =s id) && (h == g) then none else o
promised_step id g (frees_all i) o = if i =s id then none else o
promised_step id g stops o = none

abbrev pub promised : String → ℕ → List RouterOp → Option ℕ → Option ℕ
promised id g [] o = o
promised id g (op ∷ ops) o = promised id g ops (promised_step id g op o)

-- What one call does to the entries of an instance, and that they stay single.
abbrev pub Steps : RouterOp → Router → Router → String → Type 0
Steps op r r' j =
    IsSingle (proxies_of j r)
    → IsSingle (proxies_of j r')
      × ((g : ℕ)
          → public_of g (proxies_of j r') ≡ promised_step j g op (public_of g (proxies_of j r)))

-- A call for another instance.
other_allocates :
    (id j protocol : String) (g h : ℕ) (l o : Option ℕ)
    → (id =s j) ≡ false
    → o ≡ promised_step j g (allocates id h protocol l) o
other_allocates id j protocol g h l none e = rw e refl
other_allocates id j protocol g h l (some x) e = refl

added :
    (j protocol : String) (g h port : ℕ) (ps : List PortProxy) (o : Option ℕ)
    → public_of g ps ≡ o
    → public_of g (ps ++ (record { guest_port = h; public_port = port; protocol = protocol } ∷ []))
      ≡ promised_step j g (allocates j h protocol (some port)) o
added j protocol g h port ps none e = rw (=s_refl j) (public_of-snoc g ps _ e)
added j protocol g h port ps (some x) e = public_of-snoc_some g x ps _ e

add_proxy-Steps :
    (id : String) (h : ℕ) (protocol : String) (port : ℕ) (r : Router) (j : String)
    → public_of h (proxies_of id r) ≡ none
    → Steps
        (allocates id h protocol (some port))
        r
        (add_proxy id (record { guest_port = h; public_port = port; protocol = protocol }) r)
        j
unfolding add_proxy
add_proxy-Steps id h protocol port r j n s =
    let p : PortProxy = record { guest_port = h; public_port = port; protocol = protocol } in
    elim (Bool-cases (id =s j)) [
      | inl e ↦
          let same : id ≡ j = (=s_iff id j).0 e in
          let n' : public_of h (proxies_of j r) ≡ none =
            ap (λ i. public_of h (proxies_of i r)) (sym same) ∙ n in
          rw (or_nil-insert id j r.port_proxies (proxies_of id r ++ (p ∷ [])), e, same)
            (
              IsSingle-snoc (proxies_of j r) p n' s,
              λ g. added j protocol g h port (proxies_of j r) (public_of g (proxies_of j r)) refl,
            )
      | inr e ↦
          rw (or_nil-insert id j r.port_proxies (proxies_of id r ++ (p ∷ [])), e)
            (s, λ g. other_allocates id j protocol g h (some port) (public_of g (proxies_of j r)) e)
    ]

same_place : (id j : String) (h g : ℕ) → ((id =s j) && (h == g)) ≡ true → (id ≡ j) × (h ≡ g)
same_place id j h g t = (ground (arith, =s_iff id j), ground arith)

-- A call that changes nothing: nothing is listened on, or something is already.
kept :
    (id j protocol : String) (g h : ℕ) (l o : Option ℕ)
    → (((id =s j) && (h == g)) ≡ true → o ≡ none → l ≡ none)
    → o ≡ promised_step j g (allocates id h protocol l) o
kept id j protocol g h l none f =
    if_elim (λ x. none ≡ x) ((id =s j) && (h == g)) l none (λ t. sym (f t refl)) (λ t. refl)
kept id j protocol g h l (some x) f = refl

allocate_found-Steps :
    (id : String) (h : ℕ) (protocol : String) (l : Option ℕ) (r : Router) (j : String)
    (o : Option ℕ)
    → public_of h (proxies_of id r) ≡ o
    → Steps (allocates id h protocol l) r (allocate_found id h protocol l r o).0 j
unfolding allocate_found listen_for
allocate_found-Steps id h protocol l r j (some x) e s = (
  s,
  λ g. kept id j protocol g h l (public_of g (proxies_of j r)) (λ t n.
      let (same, port) = same_place id j h g t in
      let found : public_of g (proxies_of j r) ≡ some x = rw⁻¹ (same, port) e in cc),
)
allocate_found-Steps id h protocol none r j none e s =
    (s, λ g. kept id j protocol g h none (public_of g (proxies_of j r)) (λ t n. refl))
allocate_found-Steps id h protocol (some port) r j none e s =
    add_proxy-Steps id h protocol port r j e s

if-public_of :
    (b : Bool) (g : ℕ) (ps : List PortProxy)
    → public_of g (if b then [] else ps) ≡ (if b then none else public_of g ps)
unfolding public_of
if-public_of true g ps = refl
if-public_of false g ps = refl

free_all_ports-Steps :
    (id : String) (r : Router) (j : String) → Steps (frees_all id) r (free_all_ports id r) j
unfolding free_all_ports
free_all_ports-Steps id r j s = rw (or_nil-erase id j r.port_proxies) (
  if_cases IsSingle (id =s j) [] (proxies_of j r) tt s,
  λ g. if-public_of (id =s j) g (proxies_of j r),
)

freed :
    (id j : String) (g h : ℕ) (o : Option ℕ)
    → (((id =s j) && (h == g)) ≡ true → o ≡ none)
    → o ≡ promised_step j g (frees id h) o
freed id j g h o f = if_elim (λ x. o ≡ x) ((id =s j) && (h == g)) none o (λ t. f t) (λ t. refl)

removed :
    (id j : String) (g h : ℕ) (ps qs : List PortProxy)
    → IsSingle ps
    → ((id =s j) ≡ true → qs ≡ without_port h ps)
    → public_of g (if id =s j then qs else ps) ≡ promised_step j g (frees id h) (public_of g ps)
removed id j g h ps qs s f = elim (Bool-cases (id =s j)) [
  | inl e ↦ rw e (ap (public_of g) (f e) ∙ public_of-without_port g h ps s)
  | inr e ↦ rw e refl
]

free_found-Steps :
    (id : String) (h : ℕ) (r : Router) (j : String) (o : Option ℕ)
    → public_of h (proxies_of id r) ≡ o
    → Steps (frees id h) r (free_found id h r o) j
unfolding free_found
free_found-Steps id h r j none e s = (
  s,
  λ g.
      freed id j g h (public_of g (proxies_of j r))
        (λ t. let (same, port) = same_place id j h g t in rw⁻¹ (same, port) e),
)
free_found-Steps id h r j (some x) e s =
    let qs = without_port h (proxies_of id r) in
    let own : (id =s j) ≡ true → qs ≡ without_port h (proxies_of j r) =
      λ t. ap (λ i. without_port h (proxies_of i r)) ((=s_iff id j).0 t) in
    rw (or_nil-insert id j r.port_proxies qs) (
      if_elim IsSingle (id =s j) qs (proxies_of j r)
          (λ t. subst IsSingle (sym (own t)) (IsSingle-without_port h (proxies_of j r) s)) (λ t. s),
      λ g. removed id j g h (proxies_of j r) qs s own,
    )

free_each-nil :
    (j : String) (ids : List String) (r : Router)
    → proxies_of j r ≡ []
    → proxies_of j (free_each ids r) ≡ []
unfolding free_each free_all_ports
free_each-nil j [] r h = h
free_each-nil j (id ∷ ids) r h =
    free_each-nil j ids (free_all_ports id r)
      (or_nil-erase id j r.port_proxies ∙ if_cases (λ ps. ps ≡ []) (id =s j) [] _ refl h)

free_each-ids_of :
    (j : String) (m : List (String × List PortProxy)) (r : Router)
    → (lookup j m ≡ none → proxies_of j r ≡ [])
    → proxies_of j (free_each (ids_of m) r) ≡ []
unfolding free_each free_all_ports lookup
free_each-ids_of j [] r h = h refl
free_each-ids_of j ((id, ps) ∷ m) r h = free_each-ids_of j m (free_all_ports id r) (λ n.
    or_nil-erase id j r.port_proxies
    ∙ if_elim (λ qs. qs ≡ []) (id =s j) [] (proxies_of j r) (λ t. refl) (λ t. h (rw t n)))

stop-nil : (r : Router) (j : String) → proxies_of j (stop r) ≡ []
unfolding stop
stop-nil r j = free_each-ids_of j r.port_proxies r (ap or_nil)

pub route_op-Steps : (op : RouterOp) (r : Router) (j : String) → Steps op r (route_op op r) j
unfolding route_op allocate_port free_port public_of
route_op-Steps (allocates id h protocol l) r j =
    allocate_found-Steps id h protocol l r j (public_of h (proxies_of id r)) refl
route_op-Steps (frees id h) r j = free_found-Steps id h r j (public_of h (proxies_of id r)) refl
route_op-Steps (frees_all id) r j = free_all_ports-Steps id r j
route_op-Steps stops r j =
    λ s. (subst IsSingle (sym (stop-nil r j)) tt, λ g. ap (public_of g) (stop-nil r j))

route_ops-from :
    (id : String) (g : ℕ) (ops : List RouterOp) (r : Router)
    → IsSingle (proxies_of id r)
    → get_public_port id g (route_ops ops r) ≡ promised id g ops (get_public_port id g r)
unfolding route_ops get_public_port
route_ops-from id g [] r s = refl
route_ops-from id g (op ∷ ops) r s =
    let (s', h) = route_op-Steps op r id s in
    route_ops-from id g ops (route_op op r) s' ∙ ap (promised id g ops) (h g)

-- After any calls on a new router, the public port of a guest port of an instance is the one that was
-- first listened on for it since the port, all ports of the instance or the router were last let go:
-- a repeated allocation answers with it, a failed one changes nothing, and calls for other instances
-- and ports leave it.
pub route_ops-promised :
    (id : String) (g : ℕ) (ops : List RouterOp)
    → get_public_port id g (route_ops ops new_router) ≡ promised id g ops none
unfolding get_public_port public_of lookup
route_ops-promised id g ops = route_ops-from id g ops new_router tt

allocate_found-some :
    (id : String) (h : ℕ) (protocol : String) (l : ℕ) (r : Router) (o : Option ℕ)
    → (port : ℕ) × ((allocate_found id h protocol (some l) r o).1 ≡ some port)
unfolding allocate_found listen_for
allocate_found-some id h protocol l r none = (l, refl)
allocate_found-some id h protocol l r (some x) = (x, refl)

-- Where a port can be listened on, there is an answer.
pub allocate_port-some :
    (id : String) (h : ℕ) (protocol : String) (l : ℕ) (r : Router)
    → (port : ℕ) × ((allocate_port id h protocol (some l) r).1 ≡ some port)
unfolding allocate_port
allocate_port-some id h protocol l r =
    allocate_found-some id h protocol l r (public_of h (proxies_of id r))
