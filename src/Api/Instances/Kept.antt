-- ===== src/Api/Instances/Kept.antt =====
-- Every call of Api/Instances/Requests over the instances of the manager and their rows.
use aegisvm.Base.{
  ℕ, ◌≡◌, refl, sym, ap, ◌∙◌, subst, List, [], ◌∷◌, Option, none, some, String, Bool, true, false,
  ◌=s◌, =s_iff, if_elim, if_cases, lookup, insert,
}
use aegisvm.Lifecycle.Types.{Spec, Instance, Effect, Outcome}
use aegisvm.Lifecycle.Stop.{disable_instance}
use aegisvm.Lifecycle.Manager.{Manager, on_instance, on_found, delete}
use aegisvm.Lifecycle.Persist.{CapabilitiesCodec, notices, save_to_registry, persist_public_ports}
use aegisvm.Router.{Router, PortProxy, get_all_public_ports}
use aegisvm.Registry.Rows.{
  Tables, get_instance, delete_instance, update_public_ports, update_state, update_enabled,
}
use aegisvm.Api.Instances.{
  Server, Response, ApiIo, is_failed, with_listeners, ensure_port_listeners, start_kit,
  starting_again, saved_instance, delete_found, disable_found, restart_found, update_secrets_found,
  set_keys,
}
use aegisvm.Api.Instances.Maps.{is_some, lookup-own}
use aegisvm.Api.Instances.Orderly.{
  IsOrderly, SameRows, SameRows-update, SameRows-notices, is_some-save_to_registry,
  insert-IsOrderly, erase-IsOrderly,
}
use aegisvm.Api.Instances.Ports.{disable-keeps}

abbrev pub Orderly : Server → Type 0
Orderly s = IsOrderly s.manager.instances s.tables

pub rows-IsOrderly :
    (m : List (String × Instance)) (t u : Tables) → SameRows t u → IsOrderly m t → IsOrderly m u
rows-IsOrderly m t u r o = record {
  keyed = o.keyed;
  handles = o.handles;
  rows = λ k. r k ∙ o.rows k;
}

pub changed-IsOrderly :
    (i j : Instance) (m : Manager) (t u : Tables)
    → lookup i.spec.id m.instances ≡ some i
    → j.spec ≡ i.spec
    → SameRows t u
    → IsOrderly m.instances t
    → IsOrderly (insert j.spec.id j m.instances) u
changed-IsOrderly i j m t u h k r o =
    let same : j.spec.id ≡ i.spec.id = ap (λ (x : Spec). x.id) k in
    insert-IsOrderly j.spec.id i j m.instances t u
      (subst (λ z. lookup z m.instances ≡ some i) (sym same) h) refl
      (ap (λ (x : Spec). x.handle_alias) k) r o

-- A call of the manager that leaves the instance what it was made as.
pub on_instance-IsOrderly :
    (m : Manager) (id : String) (f : Instance → Outcome) (i : Instance) (t u : Tables)
    → lookup id m.instances ≡ some i
    → (f i).inst.spec ≡ i.spec
    → SameRows t u
    → IsOrderly m.instances t
    → IsOrderly (on_instance m id f).manager.instances u
unfolding on_instance on_found
on_instance-IsOrderly m id f i t u h k r o = rw h (
    insert-IsOrderly id i (f i).inst m.instances t u h
      (ap (λ (x : Spec). x.id) k ∙ lookup-own id i m.instances o.keyed h)
      (ap (λ (x : Spec). x.handle_alias) k) r o)

pub delete-IsOrderly :
    (now later : ℕ) (id : String) (m : Manager) (t : Tables) (es : List (String × Effect))
    → IsOrderly m.instances t
    → IsOrderly (delete m id now).manager.instances (delete_instance id (notices later es t))
unfolding delete
delete-IsOrderly now later id m t es o =
    erase-IsOrderly id m.instances t _ (SameRows-notices later es t t (λ k. refl)) o

SameRows-enabled :
    (id : String) (on : Bool) (t u : Tables) → SameRows t u → SameRows t (update_enabled id on u).0
unfolding update_enabled
SameRows-enabled id on t u r = SameRows-update id _ t u r

pub SameRows-ports :
    (id : String) (r : Router) (t u : Tables)
    → SameRows t u
    → SameRows t (persist_public_ports id r u)
unfolding persist_public_ports update_public_ports
SameRows-ports id r t u k = SameRows-update id _ t u k

-- A save of an instance that has a row.
pub SameRows-save :
    (codec : CapabilitiesCodec) (now : ℕ) (i j : Instance) (m : List (String × Instance))
    (t u : Tables)
    → lookup j.spec.id m ≡ some i
    → IsOrderly m t
    → SameRows t u
    → SameRows t (save_to_registry codec now j u)
SameRows-save codec now i j m t u h o r k =
    is_some-save_to_registry codec now j u k
    ∙ if_elim (λ b. b ≡ is_some (get_instance k t)) (j.spec.id =s k) _ _
        (λ e.
          let there : lookup k m ≡ some i =
            subst (λ x. lookup x m ≡ some i) ((=s_iff j.spec.id k).0 e) h in
          sym (o.rows k ∙ ap is_some there))
        (λ e. r k)

pub start_kit-Orderly :
    (io : ApiIo) (now : ℕ) (i : Instance) (s : Server) → Orderly s → Orderly (start_kit io now i s)
unfolding start_kit
start_kit-Orderly io now i s o = if_cases Orderly (i.spec.kit =s "") _ _ o o

with_listeners-Orderly :
    (io : ApiIo) (i : Instance) (ps : List PortProxy) (s : Server)
    → Orderly s
    → Orderly (with_listeners io i ps s)
with_listeners-Orderly io i [] s o = o
with_listeners-Orderly io i (p ∷ ps) s o = o

-- The end of each call that starts an instance.
pub starting_again-Orderly :
    (io : ApiIo) (now : ℕ) (i : Instance) (s : Server) (es : List (String × Effect))
    → Orderly s
    → Orderly (starting_again io i (start_kit io now i (ensure_port_listeners io i s)) es).server
unfolding ensure_port_listeners
starting_again-Orderly io now i s es o =
    let s1 = ensure_port_listeners io i s in
    let o1 : Orderly (start_kit io now i s1) =
      start_kit-Orderly io now i s1
        (with_listeners-Orderly io i (get_all_public_ports i.spec.id s.router) s o) in
    rows-IsOrderly _ _ _ (SameRows-enabled i.spec.id true _ _ (λ k. refl)) o1

disable_instance-IsOrderly :
    (now : ℕ) (i : Instance) (m : Manager) (t u : Tables)
    → lookup i.spec.id m.instances ≡ some i
    → SameRows t u
    → IsOrderly m.instances t
    → IsOrderly (on_instance m i.spec.id (disable_instance now)).manager.instances u
disable_instance-IsOrderly now i m t u h r o =
    on_instance-IsOrderly m i.spec.id (disable_instance now) i t u h (disable-keeps now i).0 r o

pub disable_found-Orderly :
    (now : ℕ) (i : Instance) (s : Server)
    → lookup i.spec.id s.manager.instances ≡ some i
    → Orderly s
    → Orderly (disable_found now i s).server
unfolding disable_found update_state
disable_found-Orderly now i s h o =
    if_cases (λ (r : Response). Orderly r.server)
      (is_failed (on_instance s.manager i.spec.id (disable_instance now)).reply) _ _ o
      (disable_instance-IsOrderly now i s.manager s.tables _ h
        (SameRows-update i.spec.id _ s.tables _ (
          SameRows-enabled i.spec.id false s.tables _
            (SameRows-notices now _ s.tables s.tables (λ k. refl))))
        o)

pub delete_found-Orderly :
    (now : ℕ) (i : Instance) (s : Server) → Orderly s → Orderly (delete_found now i s).server
unfolding delete_found
delete_found-Orderly now i s o =
    if_cases (λ (r : Response). Orderly r.server) (is_failed (delete s.manager i.spec.id now).reply)
      _ _ o (delete-IsOrderly now now i.spec.id s.manager s.tables _ o)

pub restart_found-Orderly :
    (io : ApiIo) (now : ℕ) (i : Instance) (s : Server)
    → lookup i.spec.id s.manager.instances ≡ some i
    → Orderly s
    → Orderly (restart_found io now i s).server
unfolding restart_found
restart_found-Orderly io now i s h o =
    let es = (on_instance s.manager i.spec.id (disable_instance now)).effects in
    starting_again-Orderly io now i _ es (
      disable_instance-IsOrderly now i s.manager s.tables _ h
        (SameRows-enabled i.spec.id false s.tables (notices now es s.tables)
          (SameRows-notices now es s.tables s.tables (λ k. refl)))
        o)

-- An instance that is changed in place, and saved.
pub saved_instance-Orderly :
    (io : ApiIo) (codec : CapabilitiesCodec) (now : ℕ) (i j : Instance) (s : Server) (u : Tables)
    → lookup i.spec.id s.manager.instances ≡ some i
    → j.spec.id ≡ i.spec.id
    → j.spec.handle_alias ≡ i.spec.handle_alias
    → SameRows s.tables u
    → Orderly s
    → Orderly (saved_instance io codec now j (record s { tables = u }))
saved_instance-Orderly io codec now i j s u h e f r o =
    let l : lookup j.spec.id s.manager.instances ≡ some i =
      subst (λ k. lookup k s.manager.instances ≡ some i) (sym e) h in
    insert-IsOrderly j.spec.id i j s.manager.instances s.tables _ l refl f
      (SameRows-save codec now i j s.manager.instances s.tables u l o r) o

pub update_secrets_found-Orderly :
    (io : ApiIo) (codec : CapabilitiesCodec) (now : ℕ) (keys : Option (List String)) (s : Server)
    (i : Instance)
    → lookup i.spec.id s.manager.instances ≡ some i
    → Orderly s
    → Orderly (update_secrets_found io codec now keys s i).server
unfolding update_secrets_found
update_secrets_found-Orderly io codec now none s i h o = o
update_secrets_found-Orderly io codec now (some keys) s i h o =
    saved_instance-Orderly io codec now i (set_keys io i keys) s s.tables h refl refl (λ k. refl) o
