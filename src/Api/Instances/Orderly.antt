-- ===== src/Api/Instances/Orderly.antt =====
-- What the instances of the manager and their rows in the registry have in common under the calls of
-- Api/Instances/Requests.
use aegisvm.Base.{
  ℕ, ◌≡◌, ◌≢◌, inl, inr, refl, sym, ap, ◌∙◌, subst, List, Option, none, some, String, true, false,
  ◌=s◌, =s_iff, if◌then◌else◌, if_elim, if_cases, lookup, insert, erase, lookup-insert,
  lookup-erase, arith,
}
use aegisvm.Lifecycle.Types.{Instance, Effect}
use aegisvm.Lifecycle.Persist.{
  CapabilitiesCodec, on_state_change, notices, row_of, save_to_registry,
}
use aegisvm.Lifecycle.Persist.Notices.{notices_elim}
use aegisvm.Registry.Rows.{
  InstanceRow, Tables, get_instance, update, update_state, update_stopped_at, save_instance,
  delete_instance,
}
use aegisvm.Registry.Rows.Lookup.{mapped, get_instance-update, get_instance-delete_instance}
use aegisvm.Api.Instances.Maps.{
  is_some, is_some-if, IsMap, insert-IsMap, erase-IsMap, lookup-insert_cases,
}

-- A handle that is not empty names one instance.
abbrev pub HaveOwnHandles : List (String × Instance) → Type 0
HaveOwnHandles m =
    (a b : String) (i j : Instance)
    → lookup a m ≡ some i
    → lookup b m ≡ some j
    → i.spec.handle_alias ≡ j.spec.handle_alias
    → i.spec.handle_alias ≢ ""
    → a ≡ b

-- Each instance stands under its id, a handle names one instance, and the registry has rows for the
-- instances of the manager and for no other.
pub record IsOrderly (m : List (String × Instance)) (t : Tables) : Type 0 where
  pub keyed : IsMap m
  pub handles : HaveOwnHandles m
  pub rows : (k : String) → is_some (get_instance k t) ≡ is_some (lookup k m)

-- No row comes or goes.
abbrev pub SameRows : Tables → Tables → Type 0
SameRows t u = (k : String) → is_some (get_instance k u) ≡ is_some (get_instance k t)

is_some-mapped :
    (f : InstanceRow → InstanceRow) (o : Option InstanceRow) → is_some (mapped f o) ≡ is_some o
is_some-mapped f none = refl
is_some-mapped f (some r) = refl

pub SameRows-update :
    (id : String) (f : InstanceRow → InstanceRow) (t u : Tables)
    → SameRows t u
    → SameRows t (update id f u).0
SameRows-update id f t u h k =
    ap is_some (get_instance-update id k f u)
    ∙ (if_cases (λ o. is_some o ≡ is_some (get_instance k u)) (id =s k) _ _
          (is_some-mapped f (get_instance k u)) refl
        ∙ h k)

pub SameRows-notices :
    (now : ℕ) (es : List (String × Effect)) (t u : Tables)
    → SameRows t u
    → SameRows t (notices now es u)
unfolding on_state_change update_state update_stopped_at
SameRows-notices now es t u h =
    notices_elim (SameRows t) now
      (λ id st v k. SameRows-update id _ t _ (SameRows-update id _ t v k)) es u h

-- The rows after a save.
pub is_some-save_to_registry :
    (codec : CapabilitiesCodec) (now : ℕ) (i : Instance) (t : Tables) (k : String)
    → is_some (get_instance k (save_to_registry codec now i t))
      ≡ (if i.spec.id =s k then true else is_some (get_instance k t))
unfolding save_to_registry save_instance get_instance row_of
is_some-save_to_registry codec now i t k =
    ap is_some (lookup-insert i.spec.id k _ t.instances)
    ∙ is_some-if (i.spec.id =s k) _ (lookup k t.instances)

-- The instance is changed in place.
pub insert-IsOrderly :
    (id : String) (i j : Instance) (m : List (String × Instance)) (t u : Tables)
    → lookup id m ≡ some i
    → j.spec.id ≡ id
    → j.spec.handle_alias ≡ i.spec.handle_alias
    → SameRows t u
    → IsOrderly m t
    → IsOrderly (insert id j m) u
insert-IsOrderly id i j m t u l own same r o =
    let Had : String → Instance → Type 0 =
      λ k x. (y : Instance) × (lookup k m ≡ some y) × (y.spec.handle_alias ≡ x.spec.handle_alias) in
    let had : (k : String) (x : Instance) → lookup k (insert id j m) ≡ some x → Had k x = λ k x h.
      elim (lookup-insert_cases k id j x m h) [
        | inl (e, f) ↦ (
          i,
          subst (λ z. lookup z m ≡ some i) e l,
          sym same ∙ ap (λ (z : Instance). z.spec.handle_alias) f,
        )
        | inr (e, f) ↦ (x, f, refl)
      ] in
    record {
      keyed = insert-IsMap id j m own o.keyed;
      handles = λ a b x y h k e n.
          let (x2, l2, e2) = had a x h in
          let (y2, l3, e3) = had b y k in
          o.handles a b x2 y2 l2 l3 (e2 ∙ (e ∙ sym e3)) (λ z. n (sym e2 ∙ z));
      rows = λ k.
          r k
          ∙ (o.rows k
              ∙ sym (
                  ap is_some (lookup-insert id k j m)
                  ∙ if_elim (λ z. is_some z ≡ is_some (lookup k m)) (id =s k) _ _
                      (λ e.
                        sym (ap is_some (subst (λ z. lookup z m ≡ some i) ((=s_iff id k).0 e) l)))
                      (λ e. refl)));
    }

-- The instance and its row go.
pub erase-IsOrderly :
    (id : String) (m : List (String × Instance)) (t u : Tables)
    → SameRows t u
    → IsOrderly m t
    → IsOrderly (erase id m) (delete_instance id u)
erase-IsOrderly id m t u r o =
    let had : (k : String) (x : Instance) → lookup k (erase id m) ≡ some x → lookup k m ≡ some x =
      λ k x h.
        let g : (if id =s k then none else lookup k m) ≡ some x = sym (lookup-erase id k m) ∙ h in
        ground arith in
    record {
      keyed = erase-IsMap id m o.keyed;
      handles = λ a b x y h k. o.handles a b x y (had a x h) (had b y k);
      rows = λ k.
          ap is_some (get_instance-delete_instance id k u)
          ∙ (is_some-if (id =s k) none (get_instance k u)
              ∙ (ap (λ b. if id =s k then false else b) (r k ∙ o.rows k)
                  ∙ sym
                      (ap is_some (lookup-erase id k m) ∙ is_some-if (id =s k) none (lookup k m))));
    }

-- A new instance comes in, with a handle that no other has.
pub create-IsOrderly :
    (id : String) (i : Instance) (m : List (String × Instance)) (t u : Tables)
    → lookup id m ≡ none
    → i.spec.id ≡ id
    → ((k : String) (x : Instance)
        → lookup k m ≡ some x
        → i.spec.handle_alias ≢ ""
        → x.spec.handle_alias ≢ i.spec.handle_alias)
    → ((k : String)
        → is_some (get_instance k u) ≡ (if id =s k then true else is_some (get_instance k t)))
    → IsOrderly m t
    → IsOrderly (insert id i m) u
create-IsOrderly id i m t u new own fresh r o = record {
  keyed = insert-IsMap id i m own o.keyed;
  handles = λ a b x y h k e n. elim (lookup-insert_cases a id i x m h) [
    | inl (ea, fa) ↦ elim (lookup-insert_cases b id i y m k) [
      | inl (eb, fb) ↦ sym ea ∙ eb
      | inr (eb, fb) ↦
          let same : i.spec.handle_alias ≡ x.spec.handle_alias =
            ap (λ (z : Instance). z.spec.handle_alias) fa in
          absurd (fresh b y fb (λ z. n (sym same ∙ z)) (sym e ∙ sym same))
    ]
    | inr (ea, fa) ↦ elim (lookup-insert_cases b id i y m k) [
      | inl (eb, fb) ↦
          let same : i.spec.handle_alias ≡ y.spec.handle_alias =
            ap (λ (z : Instance). z.spec.handle_alias) fb in
          absurd (fresh a x fa (λ z. n (e ∙ (sym same ∙ z))) (e ∙ sym same))
      | inr (eb, fb) ↦ o.handles a b x y fa fb e n
    ]
  ];
  rows = λ k.
      r k
      ∙ (ap (λ b. if id =s k then true else b) (o.rows k)
          ∙ sym (ap is_some (lookup-insert id k i m) ∙ is_some-if (id =s k) (some i) (lookup k m)));
}
