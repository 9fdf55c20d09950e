-- ===== src/Api/Instances/Unchanged.antt =====
-- What a refused call of Api/Instances leaves as it was.
use aegisvm.Base.{
  ℕ, ◌≤◌, ◌≡◌, inl, inr, refl, sym, ap, ◌∙◌, List, [], ◌∷◌, Option, none, some, String, ◌=s◌,
  =s_iff, codes, if_elim, if_cases, lookup, insert, arith,
}
use aegisvm.Lifecycle.Types.{Instance, is_stopped}
use aegisvm.Lifecycle.Manager.{on_instance, delete}
use aegisvm.Lifecycle.Persist.{CapabilitiesCodec}
use aegisvm.Api.Instances.{Server, Response, ApiIo, is_failed, plain_reply, on_found, by_handle}
use aegisvm.Api.Instances.Create.{
  CreateRequest, create_new, create_or_restart, handle_create_instance, handle_restart_or_conflict,
  valid_handle,
}
use aegisvm.Api.Instances.Deleted.{delete-reply, not_both}
use aegisvm.Api.Instances.Ports.{on_instance-found}
use aegisvm.Api.Instances.{delete_found, disable_found, update_secrets_found}
use aegisvm.Lifecycle.Stop.{disable_instance}
use aegisvm.Base.{◌<◌, Bool-cases, ap₂}
use aegisvm.Lifecycle.Expose.Ports.{bare}

-- The map of instances but for their endpoints.
unfoldable pub bare_all : List (String × Instance) → List (String × Instance)
bare_all [] = []
bare_all ((id, i) ∷ m) = (id, bare i) ∷ bare_all m

-- Nothing is changed, put in the background or removed; endpoints apart.
pub record Unchanged (s : Server) (r : Response) : Type 0 where
  pub instances_same : bare_all r.server.manager.instances ≡ bare_all s.manager.instances
  pub router_same : r.server.router ≡ s.router
  pub tables_same : r.server.tables ≡ s.tables
  pub frames_same : r.server.frames ≡ s.frames
  pub daemons_same : r.server.daemons ≡ s.daemons
  pub no_task : r.tasks ≡ []
  pub no_removal : r.removed ≡ none

abbrev pub Refuses : Server → Response → Type 0
Refuses s r = 400 ≤ r.status → Unchanged s r

pub plain_reply-Unchanged : (n : ℕ) (s : Server) → Unchanged s (plain_reply n s)
plain_reply-Unchanged n s = record {
  instances_same = refl;
  router_same = refl;
  tables_same = refl;
  frames_same = refl;
  daemons_same = refl;
  no_task = refl;
  no_removal = refl;
}

pub bare_all-insert :
    (id : String) (i j : Instance) (m : List (String × Instance))
    → lookup id m ≡ some i
    → bare j ≡ bare i
    → bare_all (insert id j m) ≡ bare_all m
unfolding bare_all lookup insert
bare_all-insert id i j [] h e = cc
bare_all-insert id i j ((k, w) ∷ m) h e = elim (Bool-cases (k =s id)) [
  | inl t ↦
      let same : w ≡ i = ground arith in
      let key : k ≡ id = (=s_iff k id).0 t in
      rw t (ap₂ (λ a b. (a, b) ∷ bare_all m) (sym key) (e ∙ ap bare (sym same)))
  | inr f ↦ rw f (ap (λ z. (k, bare w) ∷ z) (bare_all-insert id i j m (ground arith) e))
]

-- A call that finds its instance.
pub found-Refuses :
    (key : String) (s : Server) (o : Option Instance) (f : Instance → Response)
    → ((i : Instance) → o ≡ some i → Refuses s (f i))
    → Refuses s (on_found o s f)
found-Refuses key s none f k e = plain_reply-Unchanged 404 s
found-Refuses key s (some i) f k e = k i refl e

pub accepted : {P : Type 0} (n : ℕ) → n < 400 → 400 ≤ n → P
accepted n a b = absurd (omega arith)

pub delete_found-Refuses :
    (now : ℕ) (i : Instance) (s : Server)
    → lookup i.spec.id s.manager.instances ≡ some i
    → Refuses s (delete_found now i s)
unfolding delete_found
delete_found-Refuses now i s h =
    if_elim (Refuses s) (is_failed (delete s.manager i.spec.id now).reply) _ _
      (λ t. absurd (not_both (delete-reply now i.spec.id s.manager i h) t))
      (λ t. accepted 200 (omega arith))

pub disable_found-Refuses :
    (now : ℕ) (i : Instance) (s : Server)
    → lookup i.spec.id s.manager.instances ≡ some i
    → Refuses s (disable_found now i s)
unfolding disable_found
disable_found-Refuses now i s h =
    if_elim (Refuses s) (is_failed (on_instance s.manager i.spec.id (disable_instance now)).reply) _
      _ (λ t. absurd (not_both (on_instance-found i.spec.id s.manager now i h).1 t))
      (λ t. accepted 200 (omega arith))

pub update_secrets_found-Refuses :
    (io : ApiIo) (codec : CapabilitiesCodec) (now : ℕ) (keys : Option (List String)) (s : Server)
    (i : Instance)
    → Refuses s (update_secrets_found io codec now keys s i)
unfolding update_secrets_found
update_secrets_found-Refuses io codec now none s i e = plain_reply-Unchanged 400 s
update_secrets_found-Refuses io codec now (some keys) s i e = accepted 200 (omega arith) e

create_new-Refuses :
    (io : ApiIo) (codec : CapabilitiesCodec) (now : ℕ) (id : String) (req : CreateRequest)
    (s : Server)
    → Refuses s (create_new io codec now id req s)
unfolding create_new
create_new-Refuses io codec now id req s =
    if_cases (Refuses s) _ _ _ (λ e. plain_reply-Unchanged 400 s) (accepted 201 (omega arith))

create_or_restart-Refuses :
    (io : ApiIo) (codec : CapabilitiesCodec) (now : ℕ) (id : String) (req : CreateRequest)
    (s : Server) (o : Option Instance)
    → Refuses s (create_or_restart io codec now id req s o)
unfolding create_or_restart handle_restart_or_conflict
create_or_restart-Refuses io codec now id req s none = create_new-Refuses io codec now id req s
create_or_restart-Refuses io codec now id req s (some i) =
    if_cases (Refuses s) (is_stopped i.state) _ _ (accepted 200 (omega arith))
      (λ e. plain_reply-Unchanged 409 s)

pub handle_create_instance-Refuses :
    (io : ApiIo) (codec : CapabilitiesCodec) (now : ℕ) (id : String) (req : CreateRequest)
    (s : Server)
    → Refuses s (handle_create_instance io codec now id req s)
unfolding handle_create_instance
handle_create_instance-Refuses io codec now id req s =
    if_cases (Refuses s) (req.handle =s "") _ _ (create_new-Refuses io codec now id req s) (
      if_cases (Refuses s) (valid_handle (codes req.handle)) _ _
        (create_or_restart-Refuses io codec now id req s (by_handle req.handle s.manager.instances))
        (λ e. plain_reply-Unchanged 400 s))
