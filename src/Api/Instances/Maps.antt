-- ===== src/Api/Instances/Maps.antt =====
-- The map of instances under the calls of Api/Instances: each instance under its own id, and handles.
use aegisvm.Base.{
  ◌≡◌, ◌≢◌, ◌⊎◌, inl, inr, refl, sym, ap, ◌∙◌, subst, List, [], ◌∷◌, Option, none, some, String,
  Bool, true, false, ◌=s◌, =s_iff, if◌then◌else◌, if_elim, if_cases, Option-cases, Bool-cases,
  lookup, insert, erase, lookup-insert, lookup-erase, arith,
}
use aegisvm.Lifecycle.Types.{Instance}
use aegisvm.Lifecycle.Manager.{Manager}
use aegisvm.Api.Instances.{by_handle, or_handle, find_instance}

-- A Go map, in which each instance stands under its id.
abbrev pub IsMap : List (String × Instance) → Type 0
IsMap [] = Unit
IsMap ((id, i) ∷ m) = (i.spec.id ≡ id) × (lookup id m ≡ none) × IsMap m

-- Whether there is one.
abbrev pub is_some {ℓ} : {A : Type ℓ} → Option A → Bool
is_some none = false
is_some (some x) = true

pub is_some-if {ℓ} :
    {A : Type ℓ} (b : Bool) (x y : Option A)
    → is_some (if b then x else y) ≡ (if b then is_some x else is_some y)
is_some-if true x y = refl
is_some-if false x y = refl

pub lookup-insert_cases :
    (k id : String) (i x : Instance) (m : List (String × Instance))
    → lookup k (insert id i m) ≡ some x
    → ((id ≡ k) × (i ≡ x)) ⊎ (((id =s k) ≡ false) × (lookup k m ≡ some x))
lookup-insert_cases k id i x m h =
    let l : (if id =s k then some i else lookup k m) ≡ some x = sym (lookup-insert id k i m) ∙ h in
    elim (Bool-cases (id =s k)) [
      | inl t ↦ inl ((=s_iff id k).0 t, ground arith)
      | inr f ↦ inr (f, ground arith)
    ]

lookup-other :
    (k id : String) (i : Instance) (m : List (String × Instance))
    → (id =s k) ≡ false
    → lookup k (insert id i m) ≡ lookup k m
lookup-other k id i m h = lookup-insert id k i m ∙ rw h refl

pub insert-IsMap :
    (id : String) (i : Instance) (m : List (String × Instance))
    → i.spec.id ≡ id
    → IsMap m
    → IsMap (insert id i m)
unfolding insert lookup
insert-IsMap id i [] h k = (h, refl, tt)
insert-IsMap id i ((j, w) ∷ m) h k =
    if_elim IsMap (j =s id) _ _
      (λ t. (h, subst (λ x. lookup x m ≡ none) ((=s_iff j id).0 t) k.1, k.2))
      (λ f. (
        k.0,
        lookup-other j id i m (ground (arith, =s_iff j id, =s_iff id j)) ∙ k.1,
        insert-IsMap id i m h k.2,
      ))

pub erase-IsMap : (id : String) (m : List (String × Instance)) → IsMap m → IsMap (erase id m)
unfolding erase
erase-IsMap id [] k = tt
erase-IsMap id ((j, w) ∷ m) k = if_cases IsMap (j =s id) _ _ (erase-IsMap id m k.2) (
  k.0,
  lookup-erase id j m ∙ if_cases (λ o. o ≡ none) (id =s j) _ _ refl k.1,
  erase-IsMap id m k.2,
)

pub lookup-own :
    (k : String) (i : Instance) (m : List (String × Instance))
    → IsMap m
    → lookup k m ≡ some i
    → i.spec.id ≡ k
unfolding lookup
lookup-own k i [] o h = cc
lookup-own k i ((j, w) ∷ m) o h = elim (Bool-cases (j =s k)) [
  | inl t ↦
      let same : j ≡ k = (=s_iff j k).0 t in
      let here : w ≡ i = ground arith in ap (λ (x : Instance). x.spec.id) (sym here) ∙ (o.0 ∙ same)
  | inr f ↦ lookup-own k i m o.2 (ground arith)
]

pub lookup-by_handle :
    (h : String) (i : Instance) (m : List (String × Instance))
    → IsMap m
    → by_handle h m ≡ some i
    → lookup i.spec.id m ≡ some i
unfolding lookup by_handle
lookup-by_handle h i [] o e = cc
lookup-by_handle h i ((j, w) ∷ m) o e = elim (Bool-cases (w.spec.handle_alias =s h)) [
  | inl t ↦
      let here : w ≡ i = ground arith in
      let same : j ≡ i.spec.id = sym o.0 ∙ ap (λ (x : Instance). x.spec.id) here in
      rw ((=s_iff j i.spec.id).1 same) (ap some here)
  | inr f ↦
      let below : lookup i.spec.id m ≡ some i = lookup-by_handle h i m o.2 (ground arith) in
      elim (Bool-cases (j =s i.spec.id)) [
        | inl t ↦
            let same : j ≡ i.spec.id = (=s_iff j i.spec.id).0 t in
            let gone : lookup i.spec.id m ≡ none = subst (λ x. lookup x m ≡ none) same o.1 in cc
        | inr g ↦ rw g below
      ]
]

-- No instance has a handle that is not found.
pub by_handle-none :
    (h k : String) (i : Instance) (m : List (String × Instance))
    → by_handle h m ≡ none
    → lookup k m ≡ some i
    → i.spec.handle_alias ≢ h
unfolding lookup by_handle
by_handle-none h k i [] e l = cc
by_handle-none h k i ((j, w) ∷ m) e l = elim (Bool-cases (w.spec.handle_alias =s h)) [
  | inl t ↦ absurd (ground arith)
  | inr f ↦ elim (Bool-cases (j =s k)) [
    | inl t ↦
        let here : w ≡ i = ground arith in
        λ same.
          let own : w.spec.handle_alias ≡ h =
            ap (λ (x : Instance). x.spec.handle_alias) here ∙ same in
          ground (arith, =s_iff w.spec.handle_alias h)
    | inr g ↦ by_handle-none h k i m (ground arith) (ground arith)
  ]
]

pub lookup-find_instance :
    (key : String) (i : Instance) (m : Manager)
    → IsMap m.instances
    → find_instance key m ≡ some i
    → lookup i.spec.id m.instances ≡ some i
unfolding find_instance
lookup-find_instance key i m o h = elim (Option-cases (lookup key m.instances)) [
  | inl e ↦
      let missed : by_handle key m.instances ≡ some i = sym (ap (or_handle key m) e) ∙ h in
      lookup-by_handle key i m.instances o missed
  | inr (x, e) ↦
      let there : some x ≡ some i = sym (ap (or_handle key m) e) ∙ h in
      let l : lookup key m.instances ≡ some i = e ∙ there in
      subst (λ k. lookup k m.instances ≡ some i) (sym (lookup-own key i m.instances o l)) l
]
