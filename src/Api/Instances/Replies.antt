-- ===== src/Api/Instances/Replies.antt =====
-- The calls of Api/Instances that create instances or expose ports, over the map and the rows.
use aegisvm.Base.{
  ℕ, ◌≡◌, ◌≢◌, refl, ap, ◌∙◌, List, [], ◌∷◌, Option, none, some, String, true, ◌=s◌, =s_iff, codes,
  if◌then◌else◌, if_elim, if_cases, lookup,
}
use aegisvm.Lifecycle.Types.{Spec, Instance, is_stopped}
use aegisvm.Lifecycle.Manager.{create_instance, new_instance}
use aegisvm.Lifecycle.Expose.{ExposeIo, ExposeReply, exposed, expose_failed, has_port}
use aegisvm.Lifecycle.Expose.Ports.{expose_port-spec}
use aegisvm.Lifecycle.Persist.{CapabilitiesCodec, persist_public_ports, create, allocate_ports}
use aegisvm.Router.{Router, free_port}
use aegisvm.Api.Instances.{
  Server, Response, ApiIo, saved_instance, plain_reply, on_found, find_instance, by_handle,
}
use aegisvm.Api.Instances.Create.{
  CreateRequest, create_new, create_or_restart, handle_create_instance, handle_restart_or_conflict,
  merged_keys, requested, valid_handle,
}
use aegisvm.Api.Instances.Exposing.{
  ExposeRequest, guest_port_of, http_if_empty, with_ports, expose_answer, expose_allowed,
  expose_checked, expose_found, unexpose_answer,
}
use aegisvm.Api.Instances.Maps.{lookup-find_instance, lookup-by_handle, by_handle-none}
use aegisvm.Api.Instances.Orderly.{is_some-save_to_registry, create-IsOrderly}
use aegisvm.Api.Instances.Kept.{
  Orderly, rows-IsOrderly, changed-IsOrderly, SameRows-ports, start_kit-Orderly,
  starting_again-Orderly, saved_instance-Orderly,
}

unfoldable pub OrderlyReply : Response → Type 0
OrderlyReply r = Orderly r.server

on_found-Orderly :
    (key : String) (s : Server) (o : Option Instance) (f : Instance → Response)
    → ((i : Instance) → o ≡ some i → OrderlyReply (f i))
    → Orderly s
    → OrderlyReply (on_found o s f)
unfolding OrderlyReply
on_found-Orderly key s none f k o = o
on_found-Orderly key s (some i) f k o = k i refl

-- A call of an instance that is found.
pub found-Orderly :
    (key : String) (s : Server) (f : Instance → Response)
    → ((i : Instance) → lookup i.spec.id s.manager.instances ≡ some i → OrderlyReply (f i))
    → Orderly s
    → OrderlyReply (on_found (find_instance key s.manager) s f)
found-Orderly key s f k o =
    on_found-Orderly key s (find_instance key s.manager) f
      (λ i e. k i (lookup-find_instance key i s.manager o.keyed e)) o

pub plain_reply-Orderly :
    (status : ℕ) (s : Server) → Orderly s → OrderlyReply (plain_reply status s)
unfolding OrderlyReply
plain_reply-Orderly status s o = o

module _ (io : ApiIo) (codec : CapabilitiesCodec) (now : ℕ) where
  create_new-Orderly :
      (id : String) (req : CreateRequest) (s : Server)
      → lookup id s.manager.instances ≡ none
      → (req.handle ≢ "" → by_handle req.handle s.manager.instances ≡ none)
      → Orderly s
      → OrderlyReply (create_new io codec now id req s)
  unfolding OrderlyReply create_new create create_instance allocate_ports new_instance
  create_new-Orderly id req s new fresh o =
      let i = requested io id now req in
      let P : Response → Type 0 = λ r. Orderly r.server in
      if_cases P _ _ _ o (
        start_kit-Orderly io now i _ (
          create-IsOrderly id i s.manager.instances s.tables _ new refl
            (λ k x l n. by_handle-none req.handle k x s.manager.instances (fresh n) l)
            (λ k.
              is_some-save_to_registry codec now i _ k
              ∙ ap (λ b. if id =s k then true else b)
                  (SameRows-ports id s.router s.tables s.tables (λ j. refl) k))
            o))

  merged_keys-Orderly :
      (keys : List String) (i : Instance) (s : Server)
      → lookup i.spec.id s.manager.instances ≡ some i
      → Orderly s
      → Orderly (merged_keys io codec now keys i s).1
  merged_keys-Orderly [] i s h o = o
  merged_keys-Orderly (k ∷ ks) i s h o =
      saved_instance-Orderly io codec now i (merged_keys io codec now (k ∷ ks) i s).0 s s.tables h
        refl refl (λ n. refl) o

  handle_restart_or_conflict-Orderly :
      (keys : List String) (s : Server) (i : Instance)
      → lookup i.spec.id s.manager.instances ≡ some i
      → Orderly s
      → OrderlyReply (handle_restart_or_conflict io codec now keys s i)
  unfolding OrderlyReply handle_restart_or_conflict
  handle_restart_or_conflict-Orderly keys s i h o =
      let (j, s1) = merged_keys io codec now keys i s in
      if_cases (λ (r : Response). Orderly r.server) (is_stopped i.state) _ _
        (starting_again-Orderly io now j s1 [] (merged_keys-Orderly keys i s h o)) o

  create_or_restart-Orderly :
      (id : String) (req : CreateRequest) (s : Server) (e : Option Instance)
      → by_handle req.handle s.manager.instances ≡ e
      → lookup id s.manager.instances ≡ none
      → Orderly s
      → OrderlyReply (create_or_restart io codec now id req s e)
  unfolding create_or_restart
  create_or_restart-Orderly id req s none h new o = create_new-Orderly id req s new (λ n. h) o
  create_or_restart-Orderly id req s (some i) h new o =
      handle_restart_or_conflict-Orderly req.secrets s i
        (lookup-by_handle req.handle i s.manager.instances o.keyed h) o

  pub handle_create_instance-Orderly :
      (id : String) (req : CreateRequest) (s : Server)
      → lookup id s.manager.instances ≡ none
      → Orderly s
      → OrderlyReply (handle_create_instance io codec now id req s)
  unfolding handle_create_instance
  handle_create_instance-Orderly id req s new o =
      if_elim OrderlyReply (req.handle =s "") _ _
        (λ t. create_new-Orderly id req s new (λ n. absurd (n ((=s_iff req.handle "").0 t))) o)
        (λ t.
          if_cases OrderlyReply (valid_handle (codes req.handle)) _ _
            (create_or_restart-Orderly id req s (by_handle req.handle s.manager.instances) refl new
              o)
            (plain_reply-Orderly 400 s o))

  expose_answer-Orderly :
      (g : ℕ) (i j : Instance) (r : Router) (s : Server) (a : ExposeReply)
      → lookup i.spec.id s.manager.instances ≡ some i
      → j.spec ≡ i.spec
      → Orderly s
      → OrderlyReply (expose_answer io codec now g i j r s a).0
  unfolding OrderlyReply
  expose_answer-Orderly g i j r s (expose_failed e) h k o =
      changed-IsOrderly i j s.manager s.tables s.tables h k (λ n. refl) o
  expose_answer-Orderly g i j r s (exposed p) h k o =
      let id = i.spec.id in
      let s1 : Server = record s { router = r } in
      let u = persist_public_ports id r s.tables in
      let o1 : Orderly (
          if has_port g i.expose_ports
          then s
          else saved_instance io codec now j (with_ports id s1)) =
        if_cases Orderly (has_port g i.expose_ports) _ _ o (
          saved_instance-Orderly io codec now i j s1 u h (ap (λ (x : Spec). x.id) k)
            (ap (λ (x : Spec). x.handle_alias) k)
            (SameRows-ports id r s.tables s.tables (λ n. refl)) o) in
      rows-IsOrderly _ _ _ (SameRows-ports id _ _ _ (λ n. refl)) o1

  expose_checked-Orderly :
      (vm : ExposeIo) (req : ExposeRequest) (s : Server) (i : Instance) (g : Option ℕ)
      → lookup i.spec.id s.manager.instances ≡ some i
      → Orderly s
      → OrderlyReply (expose_checked io codec now vm req s i g).0
  unfolding expose_allowed
  expose_checked-Orderly vm req s i none h o = plain_reply-Orderly 400 s o
  expose_checked-Orderly vm req s i (some g) h o =
      expose_answer-Orderly g i _ _ s _ h (expose_port-spec _ g (http_if_empty req.protocol) i) o

  pub expose_found-Orderly :
      (vm : ExposeIo) (req : Option ExposeRequest) (s : Server) (o : Option Instance)
      → ((i : Instance) → o ≡ some i → lookup i.spec.id s.manager.instances ≡ some i)
      → Orderly s
      → OrderlyReply (expose_found io codec now vm req s o).0
  expose_found-Orderly vm req s none h o = plain_reply-Orderly 404 s o
  expose_found-Orderly vm none s (some i) h o = plain_reply-Orderly 400 s o
  expose_found-Orderly vm (some req) s (some i) h o =
      expose_checked-Orderly vm req s i (guest_port_of req.port) (h i refl) o

  pub unexpose_answer-Orderly :
      (g : ℕ) (i j : Instance) (s : Server) (a : ExposeReply)
      → lookup i.spec.id s.manager.instances ≡ some i
      → j.spec ≡ i.spec
      → Orderly s
      → OrderlyReply (unexpose_answer io codec now g s (j, a))
  unfolding OrderlyReply
  unexpose_answer-Orderly g i j s (expose_failed e) h k o = o
  unexpose_answer-Orderly g i j s (exposed p) h k o =
      let id = j.spec.id in
      let s1 : Server = record s { router = free_port id g s.router } in
      let u = persist_public_ports id s1.router s.tables in
      rows-IsOrderly _ _ _ (SameRows-ports id _ _ _ (λ n. refl)) (
        saved_instance-Orderly io codec now i j s1 u h (ap (λ (x : Spec). x.id) k)
          (ap (λ (x : Spec). x.handle_alias) k)
          (SameRows-ports id s1.router s.tables s.tables (λ n. refl)) o)
