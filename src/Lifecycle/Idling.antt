-- ===== src/Lifecycle/Idling.antt =====
-- Idle detection (internal/lifecycle/manager.go): timers against activity, connections and leases.
use aegisvm.Base.{
  if_elim, ℕ, Option, none, some, Bool, true, false, ◌≡◌, refl, arith, ◌+◌, zero, suc, ◌≤◌,
}
use aegisvm.Lifecycle.Types.{
  State, stopped, starting, running, paused, Instance, Config, Outcome, is_paused,
}
use aegisvm.Lifecycle.Boot.Endings.{boot_instance-cases}
use aegisvm.Lifecycle.Stop.{
  handle_process_exited, stop_idle_instance, stop_instance, disable_instance,
}
use aegisvm.Lifecycle.Idle.{
  reset_activity, on_connection_close, bump_activity, acquire_lease, release_lease, may_pause,
  pause_instance, resume_instance,
}
use aegisvm.Lifecycle.Wake.{wake, WakeIo, ensure_instance, start_instance, exec_instance, exec_done}
use aegisvm.Lifecycle.Events.{
  Event, ensures, starts, execs, stops, disables, pauses, resumes, connects, closes, active,
  released, keeps_alive, exited, exec_ended, idle_due, stop_due, lease_due, step,
}
use aegisvm.Lifecycle.Invariant.{is_some}

-- A timer that is armed fires at `t` at the earliest.
abbrev pub FiresFrom : ℕ → Option ℕ → Type 0
FiresFrom t none = Unit
FiresFrom t (some d) = t ≤ d

-- What the timers owe an instance at time `now`.
pub record Idling (cfg : Config) (now : ℕ) (i : Instance) : Type 0 where
  pub past : i.last_activity ≤ now
  pub armed : may_pause i ≡ true → is_some i.idle_timer ≡ true
  pub patient : may_pause i ≡ true → FiresFrom (i.last_activity + cfg.pause_after_idle) i.idle_timer
  pub leased : is_some i.lease_timer ≡ i.lease_held
  pub halting :
      is_paused i.state ≡ true → cfg.persistent_pause ≡ false → is_some i.stop_timer ≡ true
  pub unhalted : is_paused i.state ≡ false → i.stop_timer ≡ none

-- When an event that begins at `now` has ended.
abbrev pub end_time : ℕ → Event → ℕ
end_time now (ensures io) = io.later
end_time now (starts io) = io.later
end_time now _ = now

-- The idle timer's callback calls `PauseVM`, which may fail.
abbrev pub fails_to_pause : Event → Bool
fails_to_pause (idle_due false) = true
fails_to_pause _ = false

module _ (cfg : Config) (before now : ℕ) where
  wake-Idling :
      (io : WakeIo) (i : Instance) (s : State)
      → i.state ≡ s
      → before ≤ now
      → now ≤ io.later
      → Idling cfg before i
      → Idling cfg io.later (wake cfg now io i s).inst
  unfolding wake resume_instance may_pause
  wake-Idling io i running p g h c = ground arith
  wake-Idling io i paused p g h c = ground arith
  wake-Idling io i stopped p g h c =
      boot_instance-cases cfg now io.later io.boot io.polls (λ o. Idling cfg io.later o.inst) i
        (λ w. ground arith) (λ w. ground arith) (λ k s gate env b r es err u. ground arith)
        (λ k s gate env b r a ch v es u. ground arith)
  wake-Idling io i starting p g h c = ground arith

  -- Every event but a failed pause keeps the timers' promises.
  pub step-Idling :
      (e : Event) (i : Instance)
      → before ≤ now
      → now ≤ end_time now e
      → fails_to_pause e ≡ false
      → Idling cfg before i
      → Idling cfg (end_time now e) (step cfg now e i).inst
  unfolding step start_instance may_pause
  step-Idling (ensures io) i g h f c =
      unfold ensure_instance in
      if_elim (λ (o : Outcome). Idling cfg io.later o.inst) i.enabled _ _
        (λ _. wake-Idling io i i.state refl g h c) (λ _. ground arith)
  step-Idling (starts io) i g h f c =
      wake-Idling io (record i { enabled = true }) i.state refl g h (ground arith)
  step-Idling (execs io r e) i g h f c = unfold exec_instance resume_instance in ground arith
  step-Idling stops i g h f c = unfold stop_instance in ground arith
  step-Idling disables i g h f c = unfold disable_instance in ground arith
  step-Idling (pauses vm_ok) i g h f c = unfold pause_instance in ground arith
  step-Idling (resumes vm_ok) i g h f c = unfold resume_instance in ground arith
  step-Idling connects i g h f c = unfold reset_activity in ground arith
  step-Idling closes i g h f c = unfold on_connection_close in ground arith
  step-Idling active i g h f c = unfold bump_activity in ground arith
  step-Idling released i g h f c = unfold release_lease in ground arith
  step-Idling (keeps_alive zero reason) i g h f c = ground arith
  step-Idling (keeps_alive (suc ttl) reason) i g h f c = unfold acquire_lease in ground arith
  step-Idling (exited code) i g h f c = unfold handle_process_exited in ground arith
  step-Idling (exec_ended e code) i g h f c = unfold exec_done in ground arith
  step-Idling (idle_due true) i g h f c = unfold pause_instance in ground arith
  step-Idling (idle_due false) i g h f c = cc
  step-Idling stop_due i g h f c = unfold stop_idle_instance in ground arith
  step-Idling lease_due i g h f c = unfold release_lease in ground arith
