-- ===== src/Router/Listeners.antt =====
-- The entries of one instance in the port table of internal/router/router.go.
use aegisvm.Base.{
  ℕ, ◌≡◌, refl, ap, ◌∙◌, List, [], ◌∷◌, ◌++◌, Option, none, some, String, Bool, true, false, ◌==◌,
  ◌=s◌, if◌then◌else◌, if_cases, Bool-cases, inl, inr, lookup, insert, erase, lookup-insert,
  lookup-erase, arith,
}
use aegisvm.Router.{PortProxy, or_nil, public_of, without_port}

-- No guest port of an instance has two listeners.
abbrev pub IsSingle : List PortProxy → Type 0
IsSingle [] = Unit
IsSingle (p ∷ ps) = (public_of p.guest_port ps ≡ none) × IsSingle ps

pub public_of-snoc :
    (g : ℕ) (ps : List PortProxy) (p : PortProxy)
    → public_of g ps ≡ none
    → public_of g (ps ++ (p ∷ [])) ≡ (if p.guest_port == g then some p.public_port else none)
unfolding public_of
public_of-snoc g [] p h = refl
public_of-snoc g (q ∷ ps) p h = ground (arith, public_of-snoc g ps p)

pub public_of-snoc_some :
    (g x : ℕ) (ps : List PortProxy) (p : PortProxy)
    → public_of g ps ≡ some x
    → public_of g (ps ++ (p ∷ [])) ≡ some x
unfolding public_of
public_of-snoc_some g x [] p h = cc
public_of-snoc_some g x (q ∷ ps) p h = ground (arith, public_of-snoc_some g x ps p)

pub IsSingle-snoc :
    (ps : List PortProxy) (p : PortProxy)
    → public_of p.guest_port ps ≡ none
    → IsSingle ps
    → IsSingle (ps ++ (p ∷ []))
unfolding public_of
IsSingle-snoc [] p h s = (refl, tt)
IsSingle-snoc (q ∷ ps) p h s =
    (ground (arith, public_of-snoc q.guest_port ps p s.0), IsSingle-snoc ps p (ground arith) s.1)

pub public_of-without_port :
    (g h : ℕ) (ps : List PortProxy)
    → IsSingle ps
    → public_of g (without_port h ps) ≡ (if h == g then none else public_of g ps)
unfolding public_of without_port
public_of-without_port g h [] s = ground arith
public_of-without_port g h (p ∷ ps) s = elim (Bool-cases (p.guest_port == g)) [
  | inl e ↦
      let same : p.guest_port ≡ g = ground arith in ground (arith, ap (λ k. public_of k ps) same)
  | inr e ↦ ground (arith, public_of-without_port g h ps)
]

pub IsSingle-without_port :
    (h : ℕ) (ps : List PortProxy) → IsSingle ps → IsSingle (without_port h ps)
unfolding public_of without_port
IsSingle-without_port h [] s = tt
IsSingle-without_port h (p ∷ ps) s = if_cases IsSingle (p.guest_port == h) _ _ s.1 (
  public_of-without_port p.guest_port h ps s.1 ∙ ground (arith, s.0),
  IsSingle-without_port h ps s.1,
)

or_nil-if :
    (b : Bool) (x y : Option (List PortProxy))
    → or_nil (if b then x else y) ≡ (if b then or_nil x else or_nil y)
or_nil-if true x y = refl
or_nil-if false x y = refl

module _ (id j : String) (m : List (String × List PortProxy)) where
  pub or_nil-insert :
      (ps : List PortProxy)
      → or_nil (lookup j (insert id ps m)) ≡ (if id =s j then ps else or_nil (lookup j m))
  or_nil-insert ps =
      ap or_nil (lookup-insert id j ps m) ∙ or_nil-if (id =s j) (some ps) (lookup j m)

  pub or_nil-erase : or_nil (lookup j (erase id m)) ≡ (if id =s j then [] else or_nil (lookup j m))
  or_nil-erase = ap or_nil (lookup-erase id j m) ∙ or_nil-if (id =s j) none (lookup j m)
