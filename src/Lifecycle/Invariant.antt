-- ===== src/Lifecycle/Invariant.antt =====
-- The fields of an instance (internal/lifecycle/manager.go) against its state, between two events.
use aegisvm.Base.{
  if_elim, ℕ, List, [], ◌∷◌, Option, none, some, Bool, true, false, ◌≡◌, refl, ◌≢◌, not, arith,
  zero, suc,
}
use aegisvm.Lifecycle.Types.{
  State, stopped, starting, running, paused, Instance, Config, Outcome, is_stopped,
}
use aegisvm.Lifecycle.Boot.Endings.{boot_instance-cases}
use aegisvm.Lifecycle.Stop.{
  handle_process_exited, stop_idle_instance, stop_instance, disable_instance,
}
use aegisvm.Lifecycle.Idle.{
  reset_activity, on_connection_close, bump_activity, acquire_lease, release_lease, pause_instance,
  resume_instance,
}
use aegisvm.Lifecycle.Wake.{wake, WakeIo, ensure_instance, start_instance, exec_instance, exec_done}
use aegisvm.Lifecycle.Events.{
  Event, ensures, starts, execs, stops, disables, pauses, resumes, connects, closes, active,
  released, keeps_alive, exited, exec_ended, idle_due, stop_due, lease_due, step, run,
}

abbrev pub is_some {ℓ} : {A : Type ℓ} → Option A → Bool
is_some none = false
is_some (some _) = true

-- The runtime fields agree with the state: a running or paused instance is enabled and has a VM
-- handle and a connected demuxer; a stopped one has no channel, no endpoints and no demuxer.
pub record Consistent (i : Instance) : Type 0 where
  pub settled : i.state ≢ starting
  pub connected : is_some i.demuxer ≡ not (is_stopped i.state)
  pub channelled : i.channel ≡ i.demuxer
  pub captured : i.log_capture ≡ not (is_stopped i.state)
  pub handled : is_stopped i.state ≡ false → is_some i.handle ≡ true
  pub allowed : is_stopped i.state ≡ false → i.enabled ≡ true
  pub unexposed : is_stopped i.state ≡ true → i.endpoints ≡ []

module _ (cfg : Config) (now : ℕ) where
  wake-Consistent :
      (io : WakeIo) (i : Instance) (s : State)
      → i.state ≡ s
      → Consistent i
      → i.enabled ≡ true
      → Consistent (wake cfg now io i s).inst
  unfolding wake resume_instance
  wake-Consistent io i running p c e = ground arith
  wake-Consistent io i paused p c e = ground arith
  wake-Consistent io i stopped p c e =
      boot_instance-cases cfg now io.later io.boot io.polls (λ o. Consistent o.inst) i
        (λ h. ground arith) (λ h. ground arith) (λ k s gate env b r es err u. ground arith)
        (λ k s gate env b r h ch v es u. ground arith)
  wake-Consistent io i starting p c e = ground arith

  -- Every event keeps the fields of an instance consistent with its state.
  pub step-Consistent :
      (e : Event) (i : Instance) → Consistent i → Consistent (step cfg now e i).inst
  unfolding step start_instance
  step-Consistent (ensures io) i c =
      unfold ensure_instance in
      if_elim (λ (o : Outcome). Consistent o.inst) i.enabled _ _
        (λ h. wake-Consistent io i i.state refl c h) (λ _. c)
  step-Consistent (starts io) i c =
      wake-Consistent io (record i { enabled = true }) i.state refl (ground arith) refl
  step-Consistent (execs io r e) i c = unfold exec_instance resume_instance in ground arith
  step-Consistent stops i c = unfold stop_instance in ground arith
  step-Consistent disables i c = unfold disable_instance in ground arith
  step-Consistent (pauses vm_ok) i c = unfold pause_instance in ground arith
  step-Consistent (resumes vm_ok) i c = unfold resume_instance in ground arith
  step-Consistent connects i c = unfold reset_activity in ground arith
  step-Consistent closes i c = unfold on_connection_close in ground arith
  step-Consistent active i c = unfold bump_activity in ground arith
  step-Consistent released i c = unfold release_lease in ground arith
  step-Consistent (keeps_alive zero reason) i c = ground arith
  step-Consistent (keeps_alive (suc ttl) reason) i c = unfold acquire_lease in ground arith
  step-Consistent (exited code) i c = unfold handle_process_exited in ground arith
  step-Consistent (exec_ended e code) i c = unfold exec_done in ground arith
  step-Consistent (idle_due vm_ok) i c = unfold pause_instance in ground arith
  step-Consistent stop_due i c = unfold stop_idle_instance in ground arith
  step-Consistent lease_due i c = unfold release_lease in ground arith

-- Where the fields of an instance agree with its state (a running or paused one is enabled and has a
-- VM and a demuxer, a stopped one has no channel, endpoints or demuxer), they do after any history.
pub run-Consistent :
    (cfg : Config) (es : List (ℕ × Event)) (i : Instance)
    → Consistent i
    → Consistent (run cfg es i).0
unfolding run
run-Consistent cfg [] i c = c
run-Consistent cfg ((now, e) ∷ es) i c =
    run-Consistent cfg es (step cfg now e i).inst (step-Consistent cfg now e i c)
