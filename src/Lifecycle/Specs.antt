-- ===== src/Lifecycle/Specs.antt =====
-- What an instance was made with, under the events of Lifecycle/Events.
use aegisvm.Base.{ℕ, zero, suc, true, ◌≡◌, refl, if_cases, arith}
use aegisvm.Lifecycle.Types.{State, stopped, starting, running, paused, Instance, Config, Outcome}
use aegisvm.Lifecycle.Boot.Endings.{boot_instance-cases}
use aegisvm.Lifecycle.Stop.{
  handle_process_exited, stop_idle_instance, stop_instance, disable_instance,
}
use aegisvm.Lifecycle.Idle.{
  reset_activity, on_connection_close, bump_activity, acquire_lease, release_lease, pause_instance,
  resume_instance,
}
use aegisvm.Lifecycle.Wake.{wake, WakeIo, ensure_instance, start_instance, exec_instance, exec_done}
use aegisvm.Lifecycle.Events.{
  Event, ensures, starts, execs, stops, disables, pauses, resumes, connects, closes, active,
  released, keeps_alive, exited, exec_ended, idle_due, stop_due, lease_due, step,
}

module _ (cfg : Config) (now : ℕ) where
  wake-spec : (io : WakeIo) (i : Instance) (s : State) → (wake cfg now io i s).inst.spec ≡ i.spec
  unfolding wake resume_instance
  wake-spec io i running = refl
  wake-spec io i paused = ground arith
  wake-spec io i stopped =
      boot_instance-cases cfg now io.later io.boot io.polls (λ o. o.inst.spec ≡ i.spec) i
        (λ h. refl) (λ h. refl) (λ k s gate env b r es err u. refl)
        (λ k s gate env b r h ch v es u. refl)
  wake-spec io i starting = refl

  -- No event changes what an instance was made with.
  pub step-spec : (e : Event) (i : Instance) → (step cfg now e i).inst.spec ≡ i.spec
  unfolding step start_instance
  step-spec (ensures io) i =
      unfold ensure_instance in
      if_cases (λ (o : Outcome). o.inst.spec ≡ i.spec) i.enabled _ _ (wake-spec io i i.state) refl
  step-spec (starts io) i = wake-spec io (record i { enabled = true }) i.state
  step-spec (execs io r e) i = unfold exec_instance resume_instance in ground arith
  step-spec stops i = unfold stop_instance in ground arith
  step-spec disables i = unfold disable_instance in ground arith
  step-spec (pauses vm_ok) i = unfold pause_instance in ground arith
  step-spec (resumes vm_ok) i = unfold resume_instance in ground arith
  step-spec connects i = unfold reset_activity in ground arith
  step-spec closes i = unfold on_connection_close in ground arith
  step-spec active i = unfold bump_activity in ground arith
  step-spec released i = unfold release_lease in ground arith
  step-spec (keeps_alive zero reason) i = refl
  step-spec (keeps_alive (suc ttl) reason) i = unfold acquire_lease in ground arith
  step-spec (exited code) i = unfold handle_process_exited in ground arith
  step-spec (exec_ended e code) i = unfold exec_done in ground arith
  step-spec (idle_due vm_ok) i = unfold pause_instance in ground arith
  step-spec stop_due i = unfold stop_idle_instance in ground arith
  step-spec lease_due i = unfold release_lease in ground arith
