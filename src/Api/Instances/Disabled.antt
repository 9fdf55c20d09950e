-- ===== src/Api/Instances/Disabled.antt =====
-- Execs, as in Api/Instances/Executing, that find no enabled instance.
use aegisvm.Base.{
  ℕ, ◌≡◌, refl, List, [], ◌∷◌, Option, none, some, String, Bool, false, lookup, arith,
}
use aegisvm.Lifecycle.Types.{Instance, Config, failed, disabled}
use aegisvm.Lifecycle.Events.{Event, step}
use aegisvm.Lifecycle.Manager.{on_instance, handle}
use aegisvm.Lifecycle.Persist.{notices}
use aegisvm.Api.Instances.{Server}
use aegisvm.Lifecycle.Manager
use aegisvm.Lifecycle.Wake.{WakeIo, ensure_instance}
use aegisvm.Api.Instances.Executing.{ExecIo, exec_allowed, exec_found}
use aegisvm.Api.Instances.Unchanged.{Unchanged, plain_reply-Unchanged, bare_all-insert}

abbrev pub enabled_found : Option Instance → Bool
enabled_found none = false
enabled_found (some i) = i.enabled

step-disabled :
    (cfg : Config) (now : ℕ) (io : WakeIo) (i : Instance)
    → i.enabled ≡ false
    → step cfg now (Event.ensures io) i ≡ record { inst = i; effects = []; reply = failed disabled }
unfolding step ensure_instance
step-disabled cfg now io i e = ground (arith, e)

pub exec_found-Unchanged :
    (now : ℕ) (exec_io : ExecIo) (command : Option (List String)) (s : Server) (o : Option Instance)
    → ((i : Instance) → o ≡ some i → lookup i.spec.id s.manager.instances ≡ some i)
    → enabled_found o ≡ false
    → Unchanged s (exec_found now exec_io command s o)
unfolding exec_allowed handle on_instance Manager.on_found notices
exec_found-Unchanged now exec_io command s none h e = plain_reply-Unchanged 404 s
exec_found-Unchanged now exec_io none s (some i) h e = plain_reply-Unchanged 400 s
exec_found-Unchanged now exec_io (some []) s (some i) h e = plain_reply-Unchanged 400 s
exec_found-Unchanged now exec_io (some (c ∷ cs)) s (some i) h e =
    rw (h i refl, step-disabled s.manager.cfg now exec_io.wake i e)
      (record {
        instances_same = bare_all-insert i.spec.id i i s.manager.instances (h i refl) refl;
        router_same = refl;
        tables_same = refl;
        frames_same = refl;
        daemons_same = refl;
        no_task = refl;
        no_removal = refl;
      })
