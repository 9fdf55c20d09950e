-- ===== src/Api/Instances/Refused.antt =====
-- The calls of Api/Instances/Requests that answer an error.
use aegisvm.Base.{
  ℕ, ◌≤◌, ◌≡◌, inl, inr, refl, sym, ap, subst, Option, none, some, String, Bool, true, false,
  lookup, arith,
}
use aegisvm.Lifecycle.Types.{Spec, Instance, Config}
use aegisvm.Lifecycle.Idle.{pause_instance, resume_instance}
use aegisvm.Lifecycle.Events.{Event, step}
use aegisvm.Lifecycle.Manager.{create_instance, new_instance, on_instance, handle, delete}
use aegisvm.Lifecycle.Expose.{
  ExposeIo, ExposeReply, ExposeError, exposed, expose_failed, unexpose_port,
}
use aegisvm.Lifecycle.Expose.Ports.{expose_port-spec}
use aegisvm.Lifecycle.Persist.{CapabilitiesCodec, notices}
use aegisvm.Router.{Router}
use aegisvm.Registry.Rows.{Tables}
use aegisvm.Api.Instances.{
  Server, ApiIo, is_failed, find_instance, start_found, handle_delete_instance,
  handle_disable_instance, handle_start_instance, handle_restart_instance,
  handle_update_instance_secrets,
}
use aegisvm.Api.Instances.Exposing.{
  ExposeRequest, guest_port_of, http_if_empty, expose_answer, expose_allowed, expose_checked,
  expose_found, handle_expose_port, unexpose_answer, unexpose_found, unexpose_checked,
  handle_unexpose_port, event_found, handle_pause_instance, handle_resume_instance,
}
use aegisvm.Api.Instances.Requests.{
  ApiRequest, creates, starts, restarts, disables, deletes, pauses, resumes, exposes, unexposes,
  sets_secrets, prunes, executes, api_request,
}
use aegisvm.Api.Instances.Disabled.{enabled_found, exec_found-Unchanged}
use aegisvm.Api.Instances.Maps.{IsMap, lookup-find_instance}
use aegisvm.Api.Instances.{restart_found}
use aegisvm.Lifecycle.Manager
use aegisvm.Lifecycle.Persist.{notice}
use aegisvm.Api.Instances.Executing.{handle_exec_instance}
use aegisvm.Base.{map, Bool-cases}
use aegisvm.Lifecycle.Expose.Ports.{bare, bare-expose_port}
use aegisvm.Api.Instances.Unchanged.{
  Unchanged, Refuses, plain_reply-Unchanged, bare_all-insert, found-Refuses, accepted,
  delete_found-Refuses, disable_found-Refuses, update_secrets_found-Refuses,
  handle_create_instance-Refuses,
}

expose_answer-Refuses :
    (io : ApiIo) (codec : CapabilitiesCodec) (now g : ℕ) (i j : Instance) (r : Router) (s : Server)
    (a : ExposeReply)
    → lookup i.spec.id s.manager.instances ≡ some i
    → j.spec ≡ i.spec
    → ((e : ExposeError) → a ≡ expose_failed e → bare j ≡ bare i)
    → Refuses s (expose_answer io codec now g i j r s a).0
expose_answer-Refuses io codec now g i j r s (exposed p) h k b e = accepted 200 (omega arith) e
expose_answer-Refuses io codec now g i j r s (expose_failed x) h k b e =
    let l : lookup j.spec.id s.manager.instances ≡ some i =
      subst (λ z. lookup z s.manager.instances ≡ some i) (sym (ap (λ (z : Spec). z.id) k)) h in
    record {
      instances_same = bare_all-insert j.spec.id i j s.manager.instances l (b x refl);
      router_same = refl;
      tables_same = refl;
      frames_same = refl;
      daemons_same = refl;
      no_task = refl;
      no_removal = refl;
    }

expose_checked-Refuses :
    (io : ApiIo) (codec : CapabilitiesCodec) (now : ℕ) (vm : ExposeIo) (req : ExposeRequest)
    (s : Server) (i : Instance) (g : Option ℕ)
    → lookup i.spec.id s.manager.instances ≡ some i
    → Refuses s (expose_checked io codec now vm req s i g).0
unfolding expose_allowed
expose_checked-Refuses io codec now vm req s i none h = λ e. plain_reply-Unchanged 400 s
expose_checked-Refuses io codec now vm req s i (some g) h =
    expose_answer-Refuses io codec now g i _ _ s _ h
      (expose_port-spec _ g (http_if_empty req.protocol) i)
      (λ e. bare-expose_port _ g (http_if_empty req.protocol) i e)

expose_found-Refuses :
    (io : ApiIo) (codec : CapabilitiesCodec) (now : ℕ) (vm : ExposeIo) (req : Option ExposeRequest)
    (s : Server) (o : Option Instance)
    → ((i : Instance) → o ≡ some i → lookup i.spec.id s.manager.instances ≡ some i)
    → Refuses s (expose_found io codec now vm req s o).0
expose_found-Refuses io codec now vm req s none h = λ e. plain_reply-Unchanged 404 s
expose_found-Refuses io codec now vm none s (some i) h = λ e. plain_reply-Unchanged 400 s
expose_found-Refuses io codec now vm (some req) s (some i) h =
    expose_checked-Refuses io codec now vm req s i (guest_port_of req.port) (h i refl)

unexpose_answer-Refuses :
    (io : ApiIo) (codec : CapabilitiesCodec) (now g : ℕ) (s : Server) (j : Instance)
    (a : ExposeReply)
    → Refuses s (unexpose_answer io codec now g s (j, a))
unexpose_answer-Refuses io codec now g s j (exposed p) e = accepted 200 (omega arith) e
unexpose_answer-Refuses io codec now g s j (expose_failed x) e = plain_reply-Unchanged 404 s

unexpose_found-Refuses :
    (io : ApiIo) (codec : CapabilitiesCodec) (now g : ℕ) (s : Server) (o : Option Instance)
    → Refuses s (unexpose_found io codec now g s o)
unexpose_found-Refuses io codec now g s none = λ e. plain_reply-Unchanged 404 s
unexpose_found-Refuses io codec now g s (some i) =
    unexpose_answer-Refuses io codec now g s (unexpose_port g i).0 (unexpose_port g i).1

unexpose_checked-Refuses :
    (io : ApiIo) (codec : CapabilitiesCodec) (now : ℕ) (key : String) (s : Server) (g : Option ℕ)
    → Refuses s (unexpose_checked io codec now key s g)
unexpose_checked-Refuses io codec now key s none = λ e. plain_reply-Unchanged 400 s
unexpose_checked-Refuses io codec now key s (some g) =
    unexpose_found-Refuses io codec now g s (find_instance key s.manager)

-- An event that fails has done nothing that the registry hears of.
abbrev FailsQuietly : Config → ℕ → Event → Instance → Type 0
FailsQuietly cfg now e i =
    is_failed (step cfg now e i).reply ≡ true
    → ((step cfg now e i).inst ≡ i)
      × ((t : Tables) → notices now (map (λ x. (i.spec.id, x)) (step cfg now e i).effects) t ≡ t)

pauses-FailsQuietly :
    (cfg : Config) (now : ℕ) (vm_ok : Bool) (i : Instance)
    → FailsQuietly cfg now (Event.pauses vm_ok) i
unfolding step pause_instance
pauses-FailsQuietly cfg now vm_ok i h = ground arith

resumes-FailsQuietly :
    (cfg : Config) (now : ℕ) (vm_ok : Bool) (i : Instance)
    → FailsQuietly cfg now (Event.resumes vm_ok) i
unfolding step resume_instance notices notice
resumes-FailsQuietly cfg now vm_ok i h = ground arith

event_found-Refuses :
    (now : ℕ) (e : Event) (s : Server) (o : Option Instance)
    → ((i : Instance) → o ≡ some i → lookup i.spec.id s.manager.instances ≡ some i)
    → ((i : Instance) → FailsQuietly s.manager.cfg now e i)
    → Refuses s (event_found now e s o)
unfolding event_found handle on_instance Manager.on_found
event_found-Refuses now e s none h q = λ r. plain_reply-Unchanged 404 s
event_found-Refuses now e s (some i) h q =
    rw (h i refl) (elim (Bool-cases (is_failed (step s.manager.cfg now e i).reply)) [
      | inl t ↦ λ r.
          let (same, told) = q i t in
          record {
            instances_same =
                bare_all-insert i.spec.id i (step s.manager.cfg now e i).inst s.manager.instances
                  (h i refl) (ap bare same);
            router_same = refl;
            tables_same = told s.tables;
            frames_same = refl;
            daemons_same = refl;
            no_task = refl;
            no_removal = refl;
          }
      | inr t ↦ rw t (accepted 200 (omega arith))
    ])

-- An exec of an enabled instance, which may wake it before it answers an error.
abbrev pub may_wake : ApiRequest → Server → Bool
may_wake (executes exec_io key command) s = enabled_found (find_instance key s.manager)
may_wake _ s = false

module _ (codec : CapabilitiesCodec) where
  -- A refused call changes nothing: where each instance stands in the map under its id, a call of the API
  -- that creates, starts, restarts, disables, deletes, pauses, resumes, exposes, unexposes, prunes,
  -- changes secrets or execs (but for an exec of an enabled instance, which may wake it before it
  -- answers an error) and that answers a status of 400 or more leaves the router, the registry, the frames, the processes
  -- beside the instances, and the instances but for their endpoints as they were, puts no call of the
  -- manager in the background, and removes no workspace.
  pub api_request-Unchanged :
      (io : ApiIo) (now : ℕ) (q : ApiRequest) (s : Server)
      → IsMap s.manager.instances
      → may_wake q s ≡ false
      → 400 ≤ (api_request codec io now q s).status
      → Unchanged s (api_request codec io now q s)
  unfolding api_request handle_start_instance start_found handle_restart_instance restart_found
      handle_disable_instance handle_delete_instance handle_update_instance_secrets
      handle_pause_instance handle_resume_instance handle_expose_port handle_unexpose_port
      handle_exec_instance
  api_request-Unchanged io now (creates id req) s m q =
      handle_create_instance-Refuses io codec now id req s
  api_request-Unchanged io now (starts key) s m q =
      found-Refuses key s _ _ (λ i h. accepted 200 (omega arith))
  api_request-Unchanged io now (restarts key) s m q =
      found-Refuses key s _ _ (λ i h. accepted 200 (omega arith))
  api_request-Unchanged io now (disables key) s m q =
      found-Refuses key s _ _
        (λ i h. disable_found-Refuses now i s (lookup-find_instance key i s.manager m h))
  api_request-Unchanged io now (deletes key) s m q =
      found-Refuses key s _ _
        (λ i h. delete_found-Refuses now i s (lookup-find_instance key i s.manager m h))
  api_request-Unchanged io now (pauses vm_ok key) s m q =
      event_found-Refuses now (Event.pauses vm_ok) s (find_instance key s.manager)
        (λ i h. lookup-find_instance key i s.manager m h)
        (pauses-FailsQuietly s.manager.cfg now vm_ok)
  api_request-Unchanged io now (resumes vm_ok key) s m q =
      event_found-Refuses now (Event.resumes vm_ok) s (find_instance key s.manager)
        (λ i h. lookup-find_instance key i s.manager m h)
        (resumes-FailsQuietly s.manager.cfg now vm_ok)
  api_request-Unchanged io now (exposes vm key req) s m q =
      expose_found-Refuses io codec now vm req s (find_instance key s.manager)
        (λ i h. lookup-find_instance key i s.manager m h)
  api_request-Unchanged io now (unexposes key port) s m q =
      unexpose_checked-Refuses io codec now key s (guest_port_of port)
  api_request-Unchanged io now (sets_secrets key keys) s m q =
      found-Refuses key s _ _ (λ i h. update_secrets_found-Refuses io codec now keys s i)
  api_request-Unchanged io now (prunes none) s m q = λ e. plain_reply-Unchanged 400 s
  api_request-Unchanged io now (prunes (some age)) s m q = accepted 200 (omega arith)
  api_request-Unchanged io now (executes exec_io key command) s m q = λ e.
      exec_found-Unchanged now exec_io command s (find_instance key s.manager)
        (λ i h. lookup-find_instance key i s.manager m h) q
