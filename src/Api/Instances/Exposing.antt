-- ===== src/Api/Instances/Exposing.antt =====
-- internal/api/server.go: the calls that expose ports and that pause and resume, over the manager, the
-- router and the registry. The notice to the guest is left out.
use aegisvm.Base.{
  ℕ, suc, zero, Option, none, some, String, ℤ, pos, negsuc, Bool, ◌=s◌, if◌then◌else◌, insert,
}
use aegisvm.Lifecycle.Types.{Instance}
use aegisvm.Lifecycle.Manager.{Answer, handle}
use aegisvm.Lifecycle.Events.{Event, pauses, resumes}
use aegisvm.Lifecycle.Expose.{
  RouterReply, allocated, router_error, ExposeIo, ExposeReply, exposed, expose_failed, has_port,
  expose_port, unexpose_port,
}
use aegisvm.Lifecycle.Persist.{CapabilitiesCodec, notices, persist_public_ports}
use aegisvm.Router.{Router, allocate_port, free_port, get_public_port}
use aegisvm.Api.Instances.{
  Server, Response, ApiIo, find_instance, plain_reply, is_failed, saved_instance,
}

pub record ExposeRequest : Type 0 where
  pub port : ℤ
  pub public_port : ℤ
  pub protocol : String

-- The guest port, which must be positive.
abbrev pub guest_port_of : ℤ → Option ℕ
guest_port_of (pos zero) = none
guest_port_of (pos (suc g)) = some (suc g)
guest_port_of (negsuc g) = none

-- The public port that is asked for; 0 is any.
abbrev pub asked_of : ℤ → ℕ
asked_of (pos p) = p
asked_of (negsuc p) = 0

abbrev pub router_reply : Option ℕ → RouterReply
router_reply none = router_error
router_reply (some p) = allocated p

abbrev pub http_if_empty : String → String
http_if_empty protocol = if protocol =s "" then "http" else protocol

-- The public ports of an instance are written to its row.
abbrev pub with_ports : String → Server → Server
with_ports id s = record s { tables = persist_public_ports id s.router s.tables }

abbrev pub with_instance : Instance → Server → Server
with_instance i s = record s {
  manager = record s.manager { instances = insert i.spec.id i s.manager.instances };
}

module _ (io : ApiIo) (codec : CapabilitiesCodec) (now : ℕ) where
  -- What `ExposePort` does once it has answered: a port that was exposed before is not written again.
  abbrev pub expose_answer :
      ℕ → Instance → Instance → Router → Server → ExposeReply → Response × Option ℕ
  expose_answer g i j r s (expose_failed e) = (plain_reply 409 (with_instance j s), none)
  expose_answer g i j r s (exposed p) = (
    plain_reply 200 (
        with_ports i.spec.id (
          if has_port g i.expose_ports
          then s
          else saved_instance io codec now j (with_ports i.spec.id (record s { router = r })))),
    some p,
  )

  unfoldable pub expose_allowed :
      ExposeIo → ℕ → ℕ → String → Server → Instance → Response × Option ℕ
  expose_allowed vm g asked protocol s i =
      let (r, port) = allocate_port i.spec.id g protocol (io.listen g asked) s.router in
      let (j, reply) =
        expose_port
          (record vm { known = get_public_port i.spec.id g s.router; router = router_reply port }) g
          protocol i in
      expose_answer g i j r s reply

  abbrev pub expose_checked :
      ExposeIo → ExposeRequest → Server → Instance → Option ℕ → Response × Option ℕ
  expose_checked vm req s i none = (plain_reply 400 s, none)
  expose_checked vm req s i (some g) =
      expose_allowed vm g (asked_of req.public_port) (http_if_empty req.protocol) s i

  abbrev pub expose_found :
      ExposeIo → Option ExposeRequest → Server → Option Instance → Response × Option ℕ
  expose_found vm req s none = (plain_reply 404 s, none)
  expose_found vm none s (some i) = (plain_reply 400 s, none)
  expose_found vm (some req) s (some i) = expose_checked vm req s i (guest_port_of req.port)

  -- `handleExposePort`, and the public port that it answers; the request is none if it does not decode.
  unfoldable pub handle_expose_port :
      ExposeIo → String → Option ExposeRequest → Server → Response × Option ℕ
  unfolding expose_allowed find_instance
  handle_expose_port vm key req s = expose_found vm req s (find_instance key s.manager)

  abbrev pub unexpose_answer : ℕ → Server → Instance × ExposeReply → Response
  unexpose_answer g s (j, expose_failed e) = plain_reply 404 s
  unexpose_answer g s (j, exposed p) =
      let s1 : Server = record s { router = free_port j.spec.id g s.router } in
      plain_reply 200
        (with_ports j.spec.id (saved_instance io codec now j (with_ports j.spec.id s1)))

  abbrev pub unexpose_found : ℕ → Server → Option Instance → Response
  unexpose_found g s none = plain_reply 404 s
  unexpose_found g s (some i) = unexpose_answer g s (unexpose_port g i)

  abbrev pub unexpose_checked : String → Server → Option ℕ → Response
  unexpose_checked key s none = plain_reply 400 s
  unexpose_checked key s (some g) = unexpose_found g s (find_instance key s.manager)

  -- `handleUnexposePort`
  unfoldable pub handle_unexpose_port : String → ℤ → Server → Response
  unfolding find_instance
  handle_unexpose_port key port s = unexpose_checked key s (guest_port_of port)

-- The answer of a call that pauses or resumes; the registry hears of the state.
abbrev pub told : ℕ → Server → Answer → Server
told now s a = record s { manager = a.manager; tables = notices now a.effects s.tables }

unfoldable pub event_found : ℕ → Event → Server → Option Instance → Response
event_found now e s none = plain_reply 404 s
event_found now e s (some i) =
    let a = handle s.manager i.spec.id now e in
    record (plain_reply (if is_failed a.reply then 404 else 200) (told now s a)) {
      effects = a.effects;
    }

-- `handlePauseInstance`; `vm_ok` is whether the VMM pauses.
unfoldable pub handle_pause_instance : ℕ → Bool → String → Server → Response
unfolding event_found find_instance
handle_pause_instance now vm_ok key s =
    event_found now (pauses vm_ok) s (find_instance key s.manager)

-- `handleResumeInstance`
unfoldable pub handle_resume_instance : ℕ → Bool → String → Server → Response
unfolding event_found find_instance
handle_resume_instance now vm_ok key s =
    event_found now (resumes vm_ok) s (find_instance key s.manager)
