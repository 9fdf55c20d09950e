-- ===== src/Api/Instances/Allocation.antt =====
-- The public ports that are asked for again when an instance of Api/Instances starts.
use aegisvm.Base.{
  ℕ, ◌<◌, ◌≡◌, ◌⊎◌, refl, sym, subst, inl, inr, List, [], ◌∷◌, Option, none, some, String, ℤ, true,
  ◌==◌, ltb, =s_refl, if_elim, Bool-cases, arith,
}
use aegisvm.Lifecycle.Types.{PortExpose}
use aegisvm.Lifecycle.Persist.{saved_port, or_any, allocate_saved, allocate_all}
use aegisvm.Lifecycle.Expose.{has_port}
use aegisvm.Router.{
  Router, proxies_of, public_of, allocate_port, get_public_port, allocates, route_op,
}
use aegisvm.Router.Listeners.{IsSingle}
use aegisvm.Router.Promises.{Steps, promised_step, route_op-Steps, allocate_port-some}

module _ (listen : ℕ → ℕ → Option ℕ) (id : String) (saved : List (ℤ × ℤ)) where
  -- What was asked for is had: a port that is saved is free.
  abbrev pub Free : Type 0
  Free = (g p : ℕ) → 0 < p → listen g p ≡ some p

  allocate_port-Steps :
      (h : ℕ) (protocol : String) (l : Option ℕ) (r : Router)
      → Steps (allocates id h protocol l) r (allocate_port id h protocol l r).0 id
  unfolding route_op
  allocate_port-Steps h protocol l r = route_op-Steps (allocates id h protocol l) r id

  or_any-eq :
      (ep : PortExpose) (asked : ℕ) (r : Router × Option ℕ)
      → (0 < asked → (p : ℕ) × (r.1 ≡ some p))
      → or_any listen id ep asked r ≡ r.0
  or_any-eq ep asked (r, some p) h = refl
  or_any-eq ep asked (r, none) h =
      if_elim (λ x. x ≡ r) (ltb 0 asked) _ _ (λ t. let (p, e) = h (ground arith) in cc) (λ t. refl)

  -- Each saved port that was promised to a guest port is the saved one.
  abbrev Agrees : Router → Type 0
  Agrees r =
      IsSingle (proxies_of id r)
      × ((g : ℕ)
          → 0 < saved_port g saved
          → (public_of g (proxies_of id r) ≡ none)
            ⊎ (public_of g (proxies_of id r) ≡ some (saved_port g saved)))

  promised-Agrees :
      (g h a : ℕ) (protocol : String) (l o : Option ℕ)
      → ((h == g) ≡ true → l ≡ none ⊎ (l ≡ some a))
      → (o ≡ none) ⊎ (o ≡ some a)
      → (promised_step id g (allocates id h protocol l) o ≡ none)
        ⊎ (promised_step id g (allocates id h protocol l) o ≡ some a)
  promised-Agrees g h a protocol l none k e =
      rw (=s_refl id) (if_elim (λ x. (x ≡ none) ⊎ (x ≡ some a)) (h == g) _ _ k (λ t. inl refl))
  promised-Agrees g h a protocol l (some x) k e = e

  asked_port :
      (f : Free) (g : ℕ)
      → 0 < saved_port g saved
      → listen g (saved_port g saved) ≡ some (saved_port g saved)
  asked_port f g h = f g (saved_port g saved) h

  allocate_saved-eq :
      (f : Free) (ep : PortExpose) (r : Router)
      → allocate_saved listen id saved ep r
        ≡ (allocate_port id ep.guest_port ep.protocol
            (listen ep.guest_port (saved_port ep.guest_port saved))
            r).0
  unfolding allocate_saved
  allocate_saved-eq f ep r = or_any-eq ep (saved_port ep.guest_port saved) _ (λ h.
      rw (asked_port f ep.guest_port h)
        (allocate_port-some id ep.guest_port ep.protocol (saved_port ep.guest_port saved) r))

  allocate_saved-Agrees :
      (f : Free) (ep : PortExpose) (r : Router)
      → Agrees r
      → Agrees (allocate_saved listen id saved ep r)
  allocate_saved-Agrees f ep r (single, a) =
      let h = ep.guest_port in
      let l = listen h (saved_port h saved) in
      let (single2, step) = allocate_port-Steps h ep.protocol l r single in
      rw (allocate_saved-eq f ep r) (
        single2,
        λ g p. rw (step g) (
            promised-Agrees g h (saved_port g saved) ep.protocol l (public_of g (proxies_of id r))
              (λ t.
                let same : h ≡ g = ground arith in
                inr (
                  subst (λ k. listen k (saved_port k saved) ≡ some (saved_port g saved)) (sym same)
                    (asked_port f g p)))
              (a g p)),
      )

  Has : ℕ → Router → Type 0
  Has g r = public_of g (proxies_of id r) ≡ some (saved_port g saved)

  allocate_saved-Has :
      (f : Free) (ep : PortExpose) (g : ℕ) (r : Router)
      → Agrees r
      → Has g r
      → Has g (allocate_saved listen id saved ep r)
  unfolding Has
  allocate_saved-Has f ep g r (single, a) h =
      let l = listen ep.guest_port (saved_port ep.guest_port saved) in
      let (single2, step) = allocate_port-Steps ep.guest_port ep.protocol l r single in
      rw (allocate_saved-eq f ep r, step g, h) refl

  allocate_saved-adds :
      (f : Free) (ep : PortExpose) (g : ℕ) (r : Router)
      → (ep.guest_port == g) ≡ true
      → 0 < saved_port g saved
      → Agrees r
      → Has g (allocate_saved listen id saved ep r)
  unfolding Has
  allocate_saved-adds f ep g r t p (single, a) =
      let same : g ≡ ep.guest_port = ground arith in
      let h = ep.guest_port in
      let l = listen h (saved_port h saved) in
      let (single2, step) = allocate_port-Steps h ep.protocol l r single in
      elim (a g p) [
        | inl e ↦
            rw (allocate_saved-eq f ep r, step g, e, =s_refl id, t)
              (subst (λ k. listen k (saved_port k saved) ≡ some (saved_port g saved)) same
                (asked_port f g p))
        | inr e ↦ rw (allocate_saved-eq f ep r, step g, e) refl
      ]

  allocate_all-Has :
      (f : Free) (eps : List PortExpose) (g : ℕ) (r : Router)
      → Agrees r
      → Has g r
      → Has g (allocate_all listen id saved eps r)
  unfolding allocate_all
  allocate_all-Has f [] g r a h = h
  allocate_all-Has f (ep ∷ eps) g r a h =
      allocate_all-Has f eps g _ (allocate_saved-Agrees f ep r a) (allocate_saved-Has f ep g r a h)

  allocate_all-adds :
      (f : Free) (eps : List PortExpose) (g : ℕ) (r : Router)
      → has_port g eps ≡ true
      → 0 < saved_port g saved
      → Agrees r
      → Has g (allocate_all listen id saved eps r)
  unfolding allocate_all has_port
  allocate_all-adds f [] g r t p a = cc
  allocate_all-adds f (ep ∷ eps) g r t p a = elim (Bool-cases (ep.guest_port == g)) [
    | inl e ↦
        allocate_all-Has f eps g _ (allocate_saved-Agrees f ep r a)
          (allocate_saved-adds f ep g r e p a)
    | inr e ↦
        let tail : has_port g eps ≡ true = ground arith in
        allocate_all-adds f eps g _ tail p (allocate_saved-Agrees f ep r a)
  ]

  no_ports-Agrees : (r : Router) → proxies_of id r ≡ [] → Agrees r
  unfolding public_of
  no_ports-Agrees r h = rw h (tt, λ g p. inl refl)

  -- The ports that are had again when there are none.
  pub get_public_port-allocate_all :
      (f : Free) (eps : List PortExpose) (g : ℕ) (r : Router)
      → has_port g eps ≡ true
      → 0 < saved_port g saved
      → proxies_of id r ≡ []
      → get_public_port id g (allocate_all listen id saved eps r) ≡ some (saved_port g saved)
  unfolding get_public_port Has
  get_public_port-allocate_all f eps g r t p h =
      allocate_all-adds f eps g r t p (no_ports-Agrees r h)
