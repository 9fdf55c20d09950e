-- ===== src/Lifecycle/Agreement.antt =====
-- The effects of internal/lifecycle/manager.go against the instance: what is up outside, and what
-- the state-change callback heard.
use aegisvm.Base.{
  ap, map, if_elim, if_cases, ℕ, List, [], ◌∷◌, ◌++◌, Option, none, true, ◌≡◌, refl, arith, zero,
  suc, String, ◌∙◌, negsuc,
}
use aegisvm.Lifecycle.Types.{
  is_live, State, stopped, starting, running, paused, Instance, Config, Outcome, is_stopped, Effect,
  notify, exec_exit,
}
use aegisvm.Lifecycle.Boot.{BootIo, Poll, boot_instance}
use aegisvm.Lifecycle.Boot.Endings.{boot_instance-cases}
use aegisvm.Lifecycle.Stop.{
  handle_process_exited, stop_idle_instance, stop_instance, disable_instance,
}
use aegisvm.Lifecycle.Idle.{
  reset_activity, on_connection_close, bump_activity, acquire_lease, release_lease, pause_instance,
  resume_instance,
}
use aegisvm.Lifecycle.Wake.{wake, WakeIo, ensure_instance, start_instance, exec_instance, exec_done}
use aegisvm.Lifecycle.Events.{
  Event, ensures, starts, execs, stops, disables, pauses, resumes, connects, closes, active,
  released, keeps_alive, exited, exec_ended, idle_due, stop_due, lease_due, step, run,
}
use aegisvm.Lifecycle.Replay.{
  vm_after, told_after, vm_after-append, told_after-append, vm_after-exits, told_after-exits,
}
use aegisvm.Lifecycle.Invariant.{Consistent, step-Consistent}

-- The VM that the record says is up.
abbrev pub vm_of : Instance → Option ℕ
vm_of i = elim i.state [ stopped ↦ none | _ ↦ i.handle ]

-- An outcome agrees with what went before: its effects lead from there to its instance.
pub record Agrees (i : Instance) (o : Outcome) : Type 0 where
  pub vm : vm_after o.effects (vm_of i) ≡ vm_of o.inst
  pub told : told_after o.effects i.state ≡ o.inst.state

vm_exits :
    (ws : List String) (rest : List Effect) (v : Option ℕ)
    → vm_after (map (λ e. exec_exit e (negsuc 0)) ws ++ rest) v ≡ vm_after rest v
vm_exits ws rest v =
    vm_after-append (map (λ e. exec_exit e (negsuc 0)) ws) rest v
    ∙ ap (vm_after rest) (vm_after-exits ws (negsuc 0) v)

told_exits :
    (ws : List String) (rest : List Effect) (s : State)
    → told_after (map (λ e. exec_exit e (negsuc 0)) ws ++ rest) s ≡ told_after rest s
told_exits ws rest s =
    told_after-append (map (λ e. exec_exit e (negsuc 0)) ws) rest s
    ∙ ap (told_after rest) (told_after-exits ws (negsuc 0) s)

told_last : (es : List Effect) (s t : State) → told_after (es ++ (notify t ∷ [])) s ≡ t
unfolding told_after
told_last es s t = told_after-append es (notify t ∷ []) s

vm_last :
    (es : List Effect) (t : State) (v : Option ℕ)
    → vm_after (es ++ (notify t ∷ [])) v ≡ vm_after es v
unfolding vm_after
vm_last es t v = vm_after-append es (notify t ∷ []) v

boot_instance-Agrees :
    (cfg : Config) (now later : ℕ) (io : BootIo) (ps : List Poll) (i : Instance)
    → Agrees i (boot_instance cfg now later io ps i)
unfolding vm_after told_after
boot_instance-Agrees cfg now later io ps i =
    boot_instance-cases cfg now later io ps (Agrees i) i (λ w. ground arith) (λ w. ground arith)
      (λ k s gate env b r es err u.
        ground (arith, vm_last es stopped none, told_last es starting stopped))
      (λ k s gate env b r h ch v es u.
        ground (arith, vm_last es running none, told_last es starting running))

module _ (cfg : Config) (now : ℕ) where
  wake-Agrees :
      (io : WakeIo) (i : Instance) (s : State) → i.state ≡ s → Agrees i (wake cfg now io i s)
  unfolding wake resume_instance vm_after told_after
  wake-Agrees io i stopped p = boot_instance-Agrees cfg now io.later io.boot io.polls i
  wake-Agrees io i running p = ground arith
  wake-Agrees io i paused p = ground arith
  wake-Agrees io i starting p = ground arith

  pub step-Agrees : (e : Event) (i : Instance) → Consistent i → Agrees i (step cfg now e i)
  unfolding step start_instance vm_after told_after
  step-Agrees (ensures io) i c =
      unfold ensure_instance in
      if_cases (Agrees i) i.enabled _ _ (wake-Agrees io i i.state refl) (ground arith)
  step-Agrees (starts io) i c =
      ground (arith, wake-Agrees io (record i { enabled = true }) i.state refl)
  step-Agrees (execs io r e) i c = unfold exec_instance resume_instance in ground arith
  step-Agrees stops i c =
      unfold stop_instance in
      if_elim (Agrees i) (is_stopped i.state) _ _ (λ h. ground arith)
        λ h. record { vm = rw vm_exits (ground arith); told = rw told_exits (ground arith) }
  step-Agrees disables i c =
      unfold disable_instance in
      if_elim (Agrees i) (is_stopped i.state) _ _ (λ h. ground arith)
        λ h. record { vm = rw vm_exits (ground arith); told = rw told_exits (ground arith) }
  step-Agrees (pauses vm_ok) i c = unfold pause_instance in ground arith
  step-Agrees (resumes vm_ok) i c = unfold resume_instance in ground arith
  step-Agrees connects i c = unfold reset_activity in ground arith
  step-Agrees closes i c = unfold on_connection_close in ground arith
  step-Agrees active i c = unfold bump_activity in ground arith
  step-Agrees released i c = unfold release_lease in ground arith
  step-Agrees (keeps_alive zero reason) i c = ground arith
  step-Agrees (keeps_alive (suc ttl) reason) i c = unfold acquire_lease in ground arith
  step-Agrees (exited code) i c =
      unfold handle_process_exited in
      if_elim (Agrees i) (is_live i.state) _ _
        (λ h. record { vm = rw vm_exits (ground arith); told = rw told_exits (ground arith) })
        (λ h. ground arith)
  step-Agrees (exec_ended e code) i c = unfold exec_done in ground arith
  step-Agrees (idle_due vm_ok) i c = unfold pause_instance in ground arith
  step-Agrees stop_due i c = unfold stop_idle_instance in ground arith
  step-Agrees lease_due i c = unfold release_lease in ground arith

-- After any history of an instance that was consistent, the VM that its effects leave up is the one
-- the record names (none when it is stopped), and the last state told to the callback is its state.
pub run-Agrees :
    (cfg : Config) (es : List (ℕ × Event)) (i : Instance)
    → Consistent i
    → let (j, fs) = run cfg es i in
      (vm_after fs (vm_of i) ≡ vm_of j) × (told_after fs i.state ≡ j.state)
unfolding run vm_after told_after
run-Agrees cfg [] i c = (refl, refl)
run-Agrees cfg ((now, e) ∷ es) i c =
    let o = step cfg now e i in
    let here = step-Agrees cfg now e i c in
    let (vm, told) = run-Agrees cfg es o.inst (step-Consistent cfg now e i c) in
    (
      vm_after-append o.effects (run cfg es o.inst).1 (vm_of i)
          ∙ ap (vm_after (run cfg es o.inst).1) here.vm
          ∙ vm,
      told_after-append o.effects (run cfg es o.inst).1 i.state
          ∙ ap (told_after (run cfg es o.inst).1) here.told
          ∙ told,
    )
