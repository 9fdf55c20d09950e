-- ===== src/Api/Instances/Requests.antt =====
-- The calls of internal/api/server.go that change instances, as one step, and histories of them and of
-- the events of instances. Each runs to its end before the next.
use aegisvm.Base.{ℕ, List, [], ◌∷◌, Option, none, some, String, ℤ, Bool}
use aegisvm.Lifecycle.Events.{Event}
use aegisvm.Lifecycle.Manager.{handle}
use aegisvm.Lifecycle.Persist.{CapabilitiesCodec, notices}
use aegisvm.Lifecycle.Expose.{ExposeIo}
use aegisvm.Api.Instances.{
  Server, Response, ApiIo, plain_reply, handle_delete_instance, handle_disable_instance,
  handle_start_instance, handle_restart_instance, handle_update_instance_secrets,
}
use aegisvm.Api.Instances.Create.{CreateRequest, handle_create_instance}
use aegisvm.Api.Instances.Exposing.{
  ExposeRequest, handle_expose_port, handle_unexpose_port, handle_pause_instance,
  handle_resume_instance,
}
use aegisvm.Api.Instances.Executing.{ExecIo, handle_exec_instance}
use aegisvm.Api.Instances.Prune.{handle_prune_instances}

-- The routes; the first text is an id or a handle, and the id that a new instance gets in `creates`.
pub data ApiRequest : Type 0 where
  creates : String → CreateRequest → ApiRequest
  starts restarts disables deletes : String → ApiRequest
  pauses resumes : Bool → String → ApiRequest
  exposes : ExposeIo → String → Option ExposeRequest → ApiRequest
  unexposes : String → ℤ → ApiRequest
  sets_secrets : String → Option (List String) → ApiRequest
  -- The age is none if it does not parse.
  prunes : Option ℕ → ApiRequest
  executes : ExecIo → String → Option (List String) → ApiRequest

pub data Turn : Type 0 where
  calls : ApiRequest → Turn
  happens : String → Event → Turn

module _ (codec : CapabilitiesCodec) where
  unfoldable pub api_request : ApiIo → ℕ → ApiRequest → Server → Response
  api_request io now (creates id req) s = handle_create_instance io codec now id req s
  api_request io now (starts key) s = handle_start_instance io now key s
  api_request io now (restarts key) s = handle_restart_instance io now key s
  api_request io now (disables key) s = handle_disable_instance now key s
  api_request io now (deletes key) s = handle_delete_instance now key s
  api_request io now (pauses vm_ok key) s = handle_pause_instance now vm_ok key s
  api_request io now (resumes vm_ok key) s = handle_resume_instance now vm_ok key s
  api_request io now (exposes vm key req) s = (handle_expose_port io codec now vm key req s).0
  api_request io now (unexposes key port) s = handle_unexpose_port io codec now key port s
  api_request io now (sets_secrets key keys) s =
      handle_update_instance_secrets io codec now key keys s
  api_request io now (prunes none) s = plain_reply 400 s
  api_request io now (prunes (some age)) s = plain_reply 200 (handle_prune_instances now age s).0
  api_request io now (executes exec_io key command) s =
      handle_exec_instance now exec_io key command s

  -- A call of the API, or an event of an instance: a call that was put in the background, a
  -- notification of the guest, a connection, a timer. Of an event the registry hears the states.
  unfoldable pub turn : ApiIo → ℕ → Turn → Server → Server
  unfolding api_request
  turn io now (calls q) s = (api_request io now q s).server
  turn io now (happens id e) s =
      let a = handle s.manager id now e in
      record s { manager = a.manager; tables = notices now a.effects s.tables }

  -- Each at its time, with what it sees outside.
  unfoldable pub turns : List (ApiIo × ℕ × Turn) → Server → Server
  unfolding turn
  turns [] s = s
  turns ((io, now, q) ∷ qs) s = turns qs (turn io now q s)
