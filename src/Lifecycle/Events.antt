-- ===== src/Lifecycle/Events.antt =====
-- The life of one instance as a sequence of timed events: calls of the manager, notifications of
-- the guest, and timers that are due. Each event runs to its end before the next begins.
use aegisvm.Base.{
  zero, suc, ℕ, ◌*◌, List, [], ◌∷◌, ◌++◌, Option, none, some, String, ℤ, Bool, false, leb,
  if◌then◌else◌,
}
use aegisvm.Lifecycle.Types.{Instance, Config, Effect, done, Outcome}
use aegisvm.Lifecycle.Idle.{
  reset_activity, on_connection_close, bump_activity, acquire_lease, release_lease, pause_instance,
  resume_instance,
}
use aegisvm.Lifecycle.Stop.{
  handle_process_exited, stop_idle_instance, stop_instance, disable_instance,
}
use aegisvm.Lifecycle.Wake.{
  WakeIo, ExecReply, ensure_instance, start_instance, exec_instance, exec_done,
}

pub data Event : Type 0 where
  ensures starts : WakeIo → Event
  execs : WakeIo → ExecReply → String → Event
  stops disables : Event
  pauses resumes : Bool → Event
  connects closes active released : Event
  keeps_alive : ℕ → String → Event
  exited : ℤ → Event
  exec_ended : String → ℤ → Event
  -- The timers; a callback runs only when its timer is due.
  idle_due : Bool → Event
  stop_due lease_due : Event

abbrev quiet : Instance → Outcome
quiet inst = record { inst = inst; effects = []; reply = done }

-- Whether a timer has run out.
unfoldable pub is_due : Option ℕ → ℕ → Bool
is_due none now = false
is_due (some d) now = leb d now

-- The `keepalive` handler drops a request whose time to live is not positive.
keepalive : ℕ → ℕ → String → Instance → Instance
keepalive now zero reason inst = inst
keepalive now (suc ttl) reason inst = acquire_lease now (suc ttl * 1000000) reason inst

unfoldable pub step : Config → ℕ → Event → Instance → Outcome
unfolding keepalive is_due
step cfg now (ensures io) i = ensure_instance cfg now io i
step cfg now (starts io) i = start_instance cfg now io i
step cfg now (execs io r e) i = exec_instance cfg now io r e i
step cfg now stops i = stop_instance now i
step cfg now disables i = disable_instance now i
step cfg now (pauses vm_ok) i = pause_instance cfg now vm_ok i
step cfg now (resumes vm_ok) i = resume_instance cfg now vm_ok i
step cfg now connects i = quiet (reset_activity now i)
step cfg now closes i = quiet (on_connection_close cfg now i)
step cfg now active i = quiet (bump_activity cfg now i)
step cfg now released i = quiet (release_lease cfg now i)
step cfg now (keeps_alive ttl reason) i = quiet (keepalive now ttl reason i)
step cfg now (exited code) i = handle_process_exited now code i
step cfg now (exec_ended e code) i = exec_done e code i
step cfg now (idle_due vm_ok) i =
    if is_due i.idle_timer now
    then pause_instance cfg now vm_ok (record i { idle_timer = none })
    else quiet i
step cfg now stop_due i =
    if is_due i.stop_timer now
    then stop_idle_instance now (record i { stop_timer = none })
    else quiet i
step cfg now lease_due i =
    if is_due i.lease_timer now
    then quiet (release_lease cfg now (record i { lease_timer = none }))
    else quiet i

-- A history: the effects of all its events, and the instance it leaves.
unfoldable pub run : Config → List (ℕ × Event) → Instance → Instance × List Effect
run cfg [] i = (i, [])
run cfg ((now, e) ∷ es) i =
    let o = step cfg now e i in let (j, fs) = run cfg es o.inst in (j, o.effects ++ fs)
