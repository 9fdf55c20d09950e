-- ===== src/Api/Instances/Histories.antt =====
-- Histories of the calls and events of Api/Instances/Requests.
use aegisvm.Base.{
  ℕ, ◌-◌, inl, inr, ◌≡◌, refl, List, [], ◌∷◌, Option, none, some, String, Bool, ◌&&◌, Option-cases,
  if_cases, lookup,
}
use aegisvm.Lifecycle.Types.{Instance, is_stopped}
use aegisvm.Lifecycle.Events.{Event, step}
use aegisvm.Lifecycle.Specs.{step-spec}
use aegisvm.Lifecycle.Manager.{handle, delete, on_found, on_instance}
use aegisvm.Lifecycle.Expose.{unexpose_port}
use aegisvm.Lifecycle.Expose.Ports.{unexpose_port-spec}
use aegisvm.Lifecycle.Persist.{CapabilitiesCodec, notices}
use aegisvm.Api.Instances.{
  Server, ApiIo, is_failed, find_instance, start_found, handle_delete_instance,
  handle_disable_instance, handle_start_instance, handle_restart_instance,
  handle_update_instance_secrets,
}
use aegisvm.Api.Instances.Exposing.{
  guest_port_of, handle_expose_port, unexpose_found, unexpose_checked, handle_unexpose_port,
  event_found, handle_pause_instance, handle_resume_instance,
}
use aegisvm.Lifecycle.Types.{Reply, done, failed, waiting}
use aegisvm.Lifecycle.Events.{ensures}
use aegisvm.Api.Instances.{Response}
use aegisvm.Api.Instances.Exposing.{told}
use aegisvm.Api.Instances.Executing.{
  ExecIo, exec_awake, exec_allowed, exec_found, handle_exec_instance,
}
use aegisvm.Api.Instances.Prune.{prune_one, prune_each, handle_prune_instances, is_before}
use aegisvm.Api.Instances.Requests.{
  ApiRequest, creates, starts, restarts, disables, deletes, pauses, resumes, exposes, unexposes,
  sets_secrets, prunes, executes, api_request, turn, turns, Turn, calls, happens,
}
use aegisvm.Api.Instances.Maps.{lookup-find_instance}
use aegisvm.Api.Instances.Orderly.{SameRows-notices}
use aegisvm.Api.Instances.Kept.{
  Orderly, on_instance-IsOrderly, delete-IsOrderly, starting_again-Orderly, disable_found-Orderly,
  delete_found-Orderly, restart_found-Orderly, update_secrets_found-Orderly,
}
use aegisvm.Api.Instances.Replies.{
  OrderlyReply, plain_reply-Orderly, found-Orderly, handle_create_instance-Orderly,
  expose_found-Orderly, unexpose_answer-Orderly,
}

unexpose_found-Orderly :
    (io : ApiIo) (codec : CapabilitiesCodec) (now g : ℕ) (s : Server) (o : Option Instance)
    → ((i : Instance) → o ≡ some i → lookup i.spec.id s.manager.instances ≡ some i)
    → Orderly s
    → OrderlyReply (unexpose_found io codec now g s o)
unexpose_found-Orderly io codec now g s none h o = plain_reply-Orderly 404 s o
unexpose_found-Orderly io codec now g s (some i) h o =
    unexpose_answer-Orderly io codec now g i (unexpose_port g i).0 s (unexpose_port g i).1
      (h i refl) (unexpose_port-spec g i) o

unexpose_checked-Orderly :
    (io : ApiIo) (codec : CapabilitiesCodec) (now : ℕ) (key : String) (s : Server) (g : Option ℕ)
    → Orderly s
    → OrderlyReply (unexpose_checked io codec now key s g)
unexpose_checked-Orderly io codec now key s none o = plain_reply-Orderly 400 s o
unexpose_checked-Orderly io codec now key s (some g) o =
    unexpose_found-Orderly io codec now g s (find_instance key s.manager)
      (λ i e. lookup-find_instance key i s.manager o.keyed e) o

event_found-Orderly :
    (now : ℕ) (e : Event) (s : Server) (o : Option Instance)
    → ((i : Instance) → o ≡ some i → lookup i.spec.id s.manager.instances ≡ some i)
    → Orderly s
    → OrderlyReply (event_found now e s o)
unfolding OrderlyReply event_found handle
event_found-Orderly now e s none h o = o
event_found-Orderly now e s (some i) h o =
    on_instance-IsOrderly s.manager i.spec.id (step s.manager.cfg now e) i s.tables _ (h i refl)
      (step-spec s.manager.cfg now e i) (SameRows-notices now _ s.tables s.tables (λ n. refl)) o

handle-Orderly :
    (now : ℕ) (id : String) (e : Event) (s : Server)
    → Orderly s
    → Orderly (told now s (handle s.manager id now e))
unfolding handle
handle-Orderly now id e s o = elim (Option-cases (lookup id s.manager.instances)) [
  | inl absent ↦ unfold on_instance on_found notices in rw absent o
  | inr (i, h) ↦
      on_instance-IsOrderly s.manager id (step s.manager.cfg now e) i s.tables _ h
        (step-spec s.manager.cfg now e i) (SameRows-notices now _ s.tables s.tables (λ n. refl)) o
]

exec_awake-Orderly :
    (exec_io : ExecIo) (id : String) (r : Response) (a : Reply)
    → Orderly r.server
    → Orderly (exec_awake exec_io id r a).server
exec_awake-Orderly exec_io id r (failed e) o = o
exec_awake-Orderly exec_io id r waiting o = o
exec_awake-Orderly exec_io id r done o = handle-Orderly exec_io.later id _ r.server o

exec_found-Orderly :
    (now : ℕ) (exec_io : ExecIo) (command : Option (List String)) (s : Server) (o : Option Instance)
    → Orderly s
    → Orderly (exec_found now exec_io command s o).server
unfolding exec_allowed
exec_found-Orderly now exec_io command s none o = o
exec_found-Orderly now exec_io none s (some i) o = o
exec_found-Orderly now exec_io (some []) s (some i) o = o
exec_found-Orderly now exec_io (some (c ∷ cs)) s (some i) o =
    exec_awake-Orderly exec_io i.spec.id _ _
      (handle-Orderly now i.spec.id (ensures exec_io.wake) s o)

prune_one-Orderly :
    (now : ℕ) (i : Instance) (s : Server) → Orderly s → Orderly (prune_one now i s).0
unfolding prune_one
prune_one-Orderly now i s o =
    if_cases (λ (x : Server × Bool). Orderly x.0) (is_failed (delete s.manager i.spec.id now).reply)
      _ _ o (delete-IsOrderly now now i.spec.id s.manager s.tables _ o)

prune_each-Orderly :
    (now cutoff : ℕ) (is : List (String × Instance)) (s : Server)
    → Orderly s
    → Orderly (prune_each now cutoff is s).0
unfolding prune_each
prune_each-Orderly now cutoff [] s o = o
prune_each-Orderly now cutoff ((id, i) ∷ rest) s o = prune_each-Orderly now cutoff rest _ (
    if_cases (λ (x : Server × Bool). Orderly x.0)
      (is_stopped i.state && is_before i.stopped_at cutoff) _ _ (prune_one-Orderly now i s o) o)

-- The id of a new instance is new.
abbrev pub HasNewId : ApiRequest → Server → Type 0
HasNewId (creates id req) s = lookup id s.manager.instances ≡ none
HasNewId q s = Unit

module _ (codec : CapabilitiesCodec) where
  api_request-Orderly :
      (io : ApiIo) (now : ℕ) (q : ApiRequest) (s : Server)
      → HasNewId q s
      → Orderly s
      → OrderlyReply (api_request codec io now q s)
  unfolding api_request OrderlyReply handle_start_instance start_found handle_restart_instance
      handle_disable_instance handle_delete_instance handle_update_instance_secrets
      handle_pause_instance handle_resume_instance handle_expose_port handle_unexpose_port
      handle_prune_instances handle_exec_instance
  api_request-Orderly io now (creates id req) s n o =
      handle_create_instance-Orderly io codec now id req s n o
  api_request-Orderly io now (starts key) s n o =
      found-Orderly key s _ (λ i h. starting_again-Orderly io now i s [] o) o
  api_request-Orderly io now (restarts key) s n o =
      found-Orderly key s _ (λ i h. restart_found-Orderly io now i s h o) o
  api_request-Orderly io now (disables key) s n o =
      found-Orderly key s _ (λ i h. disable_found-Orderly now i s h o) o
  api_request-Orderly io now (deletes key) s n o =
      found-Orderly key s _ (λ i h. delete_found-Orderly now i s o) o
  api_request-Orderly io now (pauses vm_ok key) s n o =
      event_found-Orderly now (Event.pauses vm_ok) s (find_instance key s.manager)
        (λ i e. lookup-find_instance key i s.manager o.keyed e) o
  api_request-Orderly io now (resumes vm_ok key) s n o =
      event_found-Orderly now (Event.resumes vm_ok) s (find_instance key s.manager)
        (λ i e. lookup-find_instance key i s.manager o.keyed e) o
  api_request-Orderly io now (exposes vm key req) s n o =
      expose_found-Orderly io codec now vm req s (find_instance key s.manager)
        (λ i e. lookup-find_instance key i s.manager o.keyed e) o
  api_request-Orderly io now (unexposes key port) s n o =
      unexpose_checked-Orderly io codec now key s (guest_port_of port) o
  api_request-Orderly io now (sets_secrets key keys) s n o =
      found-Orderly key s _ (λ i h. update_secrets_found-Orderly io codec now keys s i h o) o
  api_request-Orderly io now (executes exec_io key command) s n o =
      exec_found-Orderly now exec_io command s (find_instance key s.manager) o
  api_request-Orderly io now (prunes none) s n o = o
  api_request-Orderly io now (prunes (some age)) s n o =
      prune_each-Orderly now (now - age) s.manager.instances s o

  happens-Orderly :
      (io : ApiIo) (now : ℕ) (id : String) (e : Event) (s : Server)
      → Orderly s
      → Orderly (turn codec io now (happens id e) s)
  unfolding turn
  happens-Orderly io now id e s o = handle-Orderly now id e s o

  -- The id of a new instance is new when its turn comes.
  abbrev pub HaveNewIds : List (ApiIo × ℕ × Turn) → Server → Type 0
  HaveNewIds [] s = Unit
  HaveNewIds ((io, now, calls q) ∷ qs) s =
      HasNewId q s × HaveNewIds qs (turn codec io now (calls q) s)
  HaveNewIds ((io, now, happens id e) ∷ qs) s = HaveNewIds qs (turn codec io now (happens id e) s)

  -- The daemon keeps its house in order: where each instance stands in the map under its id, a handle
  -- that is not empty names one instance, and the registry has rows for the instances of the manager and
  -- for no other, this is so after any sequence of calls of the API that create, start, restart, disable,
  -- delete, pause, resume, exec, expose, unexpose, prune and change secrets, refused calls included, and of
  -- boots, wakes, exits, connections, timers and other events of instances, whatever they see outside, if
  -- no call creates an instance under an id that is in use.
  pub turns-Orderly :
      (qs : List (ApiIo × ℕ × Turn)) (s : Server)
      → HaveNewIds qs s
      → Orderly s
      → Orderly (turns codec qs s)
  unfolding turns turn OrderlyReply
  turns-Orderly [] s n o = o
  turns-Orderly ((io, now, calls q) ∷ qs) s (n, ns) o =
      turns-Orderly qs _ ns (api_request-Orderly io now q s n o)
  turns-Orderly ((io, now, happens id e) ∷ qs) s ns o =
      turns-Orderly qs _ ns (happens-Orderly io now id e s o)
