-- ===== src/Lifecycle/Backoff.antt =====
-- The crash backoff of internal/lifecycle/manager.go: what `handleProcessExited` counts and
-- `bootInstance` refuses.
use aegisvm.Base.{
  if_elim, ℕ, zero, suc, List, [], ◌∷◌, none, true, false, ◌≡◌, refl, ◌≤◌, ◌<◌, ◌+◌, arith, ℤ, pos,
  eqb_ℤ,
}
use aegisvm.Lifecycle.Types.{
  stopped, starting, running, paused, State, Instance, Config, Outcome, is_stopped, is_live,
  crash_uptime, crash_window, max_crashes, failed, crash_loop,
}
use aegisvm.Lifecycle.Boot.{boot_begin, crash_gate, boot_instance}
use aegisvm.Lifecycle.Boot.Endings.{boot_instance-cases}
use aegisvm.Lifecycle.Stop.{
  count_exit, handle_process_exited, stop_idle_instance, stop_instance, disable_instance,
}
use aegisvm.Lifecycle.Idle.{
  reset_activity, on_connection_close, bump_activity, acquire_lease, release_lease, pause_instance,
  resume_instance,
}
use aegisvm.Lifecycle.Wake.{wake, WakeIo, ensure_instance, start_instance, exec_instance, exec_done}
use aegisvm.Lifecycle.Events.{
  Event, ensures, starts, execs, stops, disables, pauses, resumes, connects, closes, active,
  released, keeps_alive, exited, exec_ended, idle_due, stop_due, lease_due, step, run,
}

-- The crash counter: at most the maximum, below it unless stopped, and dated when it is not zero.
pub record IsBackedOff (i : Instance) : Type 0 where
  pub total : i.crash_count ≤ max_crashes
  pub live : is_stopped i.state ≡ false → i.crash_count < max_crashes
  pub dated : i.last_crash_at ≡ none → i.crash_count ≡ 0

module _ (cfg : Config) (now : ℕ) where
  wake-IsBackedOff :
      (io : WakeIo) (i : Instance) (s : State)
      → i.state ≡ s
      → IsBackedOff i
      → IsBackedOff (wake cfg now io i s).inst
  unfolding wake resume_instance boot_begin crash_gate
  wake-IsBackedOff io i running p c = ground arith
  wake-IsBackedOff io i paused p c = ground arith
  wake-IsBackedOff io i stopped p c =
      boot_instance-cases cfg now io.later io.boot io.polls (λ o. IsBackedOff o.inst) i
        (λ h. ground arith) (λ h. ground arith) (λ k s gate env b r es err u. ground arith)
        (λ k s gate env b r h ch v es u. ground arith)
  wake-IsBackedOff io i starting p c = ground arith

  step-IsBackedOff :
      (e : Event) (i : Instance) → IsBackedOff i → IsBackedOff (step cfg now e i).inst
  unfolding step start_instance
  step-IsBackedOff (ensures io) i c =
      unfold ensure_instance in
      if_elim (λ (o : Outcome). IsBackedOff o.inst) i.enabled _ _
        (λ h. wake-IsBackedOff io i i.state refl c) (λ _. c)
  step-IsBackedOff (starts io) i c =
      wake-IsBackedOff io (record i { enabled = true }) i.state refl (ground arith)
  step-IsBackedOff (execs io r e) i c = unfold exec_instance resume_instance in ground arith
  step-IsBackedOff stops i c = unfold stop_instance in ground arith
  step-IsBackedOff disables i c = unfold disable_instance in ground arith
  step-IsBackedOff (pauses vm_ok) i c = unfold pause_instance in ground arith
  step-IsBackedOff (resumes vm_ok) i c = unfold resume_instance in ground arith
  step-IsBackedOff connects i c = unfold reset_activity in ground arith
  step-IsBackedOff closes i c = unfold on_connection_close in ground arith
  step-IsBackedOff active i c = unfold bump_activity in ground arith
  step-IsBackedOff released i c = unfold release_lease in ground arith
  step-IsBackedOff (keeps_alive zero reason) i c = ground arith
  step-IsBackedOff (keeps_alive (suc ttl) reason) i c = unfold acquire_lease in ground arith
  step-IsBackedOff (exited code) i c = unfold handle_process_exited count_exit in ground arith
  step-IsBackedOff (exec_ended e code) i c = unfold exec_done in ground arith
  step-IsBackedOff (idle_due vm_ok) i c = unfold pause_instance in ground arith
  step-IsBackedOff stop_due i c = unfold stop_idle_instance in ground arith
  step-IsBackedOff lease_due i c = unfold release_lease in ground arith

-- Where the crash counter is at most the maximum, below it unless the instance is stopped, and dated
-- when it is not zero, all of this holds after any history: an instance that is up never has the
-- maximum of crashes counted.
pub run-IsBackedOff :
    (cfg : Config) (es : List (ℕ × Event)) (i : Instance)
    → IsBackedOff i
    → IsBackedOff (run cfg es i).0
unfolding run
run-IsBackedOff cfg [] i c = c
run-IsBackedOff cfg ((now, e) ∷ es) i c =
    run-IsBackedOff cfg es (step cfg now e i).inst (step-IsBackedOff cfg now e i c)

-- When an enabled instance that is up and has one crash less than the maximum exits with an error
-- within the crash time of its last activity, every `EnsureInstance` in the crash window after that
-- fails with the crash loop error and changes nothing.
pub ensure_instance-handle_process_exited :
    (cfg : Config) (now later : ℕ) (code : ℤ) (io : WakeIo) (i : Instance)
    → is_live i.state ≡ true
    → i.enabled ≡ true
    → i.crash_count + 1 ≡ max_crashes
    → eqb_ℤ code (pos 0) ≡ false
    → now < i.last_activity + crash_uptime
    → later ≤ now + crash_window
    → let j = (handle_process_exited now code i).inst in
      let o = ensure_instance cfg later io j in (o.reply ≡ failed crash_loop) × (o.inst ≡ j)
unfolding ensure_instance handle_process_exited count_exit boot_instance boot_begin crash_gate
ensure_instance-handle_process_exited cfg now later code io i l e c z u w = ground arith
