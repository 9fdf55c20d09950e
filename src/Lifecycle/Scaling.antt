-- ===== src/Lifecycle/Scaling.antt =====
-- Scale to zero (internal/lifecycle/manager.go): idle instances under their timers.
use aegisvm.Base.{
  String, Option-cases, inl, inr, ℕ, List, [], ◌∷◌, Option, none, some, Bool, true, false, ◌≡◌,
  refl, arith, ◌+◌, ◌≤◌, ◌∙◌, ap,
}
use mathlib.Core.List.{append-nil}
use aegisvm.Lifecycle.Types.{
  exec_exit, Effect, pause_vm, notify, done, stopped, running, paused, Instance, Config,
}
use aegisvm.Lifecycle.Stop.{stop_idle_instance}
use aegisvm.Lifecycle.Idle.{may_pause, pause_instance}
use aegisvm.Lifecycle.Events.{Event, idle_due, stop_due, lease_due, step, run}
use aegisvm.Lifecycle.Idling.{Idling, fails_to_pause, end_time, step-Idling}
use aegisvm.Lifecycle.Replay.{vm_after}

-- A history whose events follow one another in time from `before` on, with no failed pause.
abbrev pub Timed : ℕ → List (ℕ × Event) → Type 0
Timed before [] = Unit
Timed before ((now, e) ∷ es) =
    (before ≤ now) × (now ≤ end_time now e) × (fails_to_pause e ≡ false) × Timed (end_time now e) es

abbrev pub last_time : ℕ → List (ℕ × Event) → ℕ
last_time t [] = t
last_time t ((now, e) ∷ es) = last_time (end_time now e) es

-- Over a history in time order in which no automatic pause fails, the promises of the timers hold to
-- the end: an instance that may be paused has its idle timer armed, due no earlier than the idle time
-- after its last activity; a lease has its timer; the stop timer is armed while the instance is paused
-- on a backend that does not keep paused VMs, and not while it is not paused.
pub run-Idling :
    (cfg : Config) (before : ℕ) (es : List (ℕ × Event)) (i : Instance)
    → Timed before es
    → Idling cfg before i
    → Idling cfg (last_time before es) (run cfg es i).0
unfolding run
run-Idling cfg before [] i t c = c
run-Idling cfg before ((now, e) ∷ es) i t c =
    run-Idling cfg (end_time now e) es (step cfg now e i).inst t.3
      (step-Idling cfg before now e i t.0 t.1 t.2 c)

-- Where the promises of the timers hold, the idle timer pauses a running instance only when it has no
-- connection and holds no lease, and no sooner than the idle time after its last activity.
pub idle_due-patient :
    (cfg : Config) (before now : ℕ) (vm_ok : Bool) (i : Instance)
    → Idling cfg before i
    → i.state ≡ running
    → (step cfg now (idle_due vm_ok) i).inst.state ≡ paused
    → (i.active_conns ≡ 0) × (i.lease_held ≡ false) × (i.last_activity + cfg.pause_after_idle ≤ now)
unfolding step pause_instance may_pause
idle_due-patient cfg before now vm_ok i c r p = ground arith

-- The timer is due at `t`, if it is armed.
abbrev pub FiresBy : Option ℕ → ℕ → Type 0
FiresBy none t = Unit
FiresBy (some d) t = d ≤ t

-- What the idle timer leaves of an idle instance, on a backend that does not keep paused VMs.
abbrev idle_paused : Config → ℕ → Instance → Instance
idle_paused cfg t i = record i {
  idle_timer = none;
  stop_timer = some (t + cfg.stop_after_idle);
  state = paused;
  updated_at = t;
}

idle_due-pauses :
    (cfg : Config) (before t : ℕ) (i : Instance)
    → Idling cfg before i
    → may_pause i ≡ true
    → cfg.persistent_pause ≡ false
    → FiresBy i.idle_timer t
    → step cfg t (idle_due true) i ≡ record {
      inst = idle_paused cfg t i;
      effects = pause_vm i.handle ∷ notify paused ∷ [];
      reply = done;
    }
unfolding step pause_instance may_pause
idle_due-pauses cfg before t i c m p f = ground arith

stop_due-stops :
    (cfg : Config) (t u : ℕ) (i : Instance)
    → t + cfg.stop_after_idle ≤ u
    → let o = step cfg u stop_due (idle_paused cfg t i) in
      (o.inst.state ≡ stopped) × (vm_after o.effects i.handle ≡ none)
unfolding step stop_idle_instance vm_after
stop_due-stops cfg t u i k = ground arith

-- Scale to zero when nothing fails: if, for a running instance with no connection and no lease, whose
-- timers keep their promises, on a backend that does not keep paused VMs, the idle timer acts at a time
-- when it is due and `PauseVM` succeeds, then the instance is paused; and if nothing else happens until
-- the stop timer acts, `stop_after_idle` later or after that, the instance is stopped and its VM is not
-- left up.
pub idle-scales_to_zero :
    (cfg : Config) (before t u : ℕ) (i : Instance)
    → Idling cfg before i
    → i.state ≡ running
    → i.active_conns ≡ 0
    → i.lease_held ≡ false
    → cfg.persistent_pause ≡ false
    → FiresBy i.idle_timer t
    → t + cfg.stop_after_idle ≤ u
    → let (j, fs) = run cfg ((t, idle_due true) ∷ (u, stop_due) ∷ []) i in
      ((step cfg t (idle_due true) i).inst.state ≡ paused)
      × (j.state ≡ stopped)
      × (vm_after fs i.handle ≡ none)
unfolding run may_pause vm_after
idle-scales_to_zero cfg before t u i c r a l p f k =
    let (s, v) = stop_due-stops cfg t u i k in
    rw (idle_due-pauses cfg before t i c (ground arith) p f) (refl, s, simp append-nil v)

-- The execs that the effects answer.
abbrev pub answered : List Effect → List String
answered [] = []
answered (exec_exit e _ ∷ es) = e ∷ answered es
answered (_ ∷ es) = answered es

stop_due-answers :
    (cfg : Config) (t u : ℕ) (i : Instance)
    → t + cfg.stop_after_idle ≤ u
    → let o = step cfg u stop_due (idle_paused cfg t i) in
      (o.inst.state ≡ stopped) × (o.inst.exec_waiters ≡ i.exec_waiters) × (answered o.effects ≡ [])
unfolding step stop_idle_instance
stop_due-answers cfg t u i k = elim (Option-cases i.demuxer) [
  | inl h ↦ rw h (ground arith)
  | inr (ch, h) ↦ rw h (ground arith)
]

-- When a running instance with no connection and no lease, whose timers keep their promises, is paused
-- and then stopped by its timers on a backend that does not keep paused VMs, none of the execs that
-- wait is answered: they still wait when the instance is stopped.
pub idle-answers_no_exec :
    (cfg : Config) (before t u : ℕ) (i : Instance)
    → Idling cfg before i
    → i.state ≡ running
    → i.active_conns ≡ 0
    → i.lease_held ≡ false
    → cfg.persistent_pause ≡ false
    → FiresBy i.idle_timer t
    → t + cfg.stop_after_idle ≤ u
    → let (j, fs) = run cfg ((t, idle_due true) ∷ (u, stop_due) ∷ []) i in
      (j.state ≡ stopped) × (j.exec_waiters ≡ i.exec_waiters) × (answered fs ≡ [])
unfolding run may_pause
idle-answers_no_exec cfg before t u i c r a l p f k =
    let (s, w, n) = stop_due-answers cfg t u i k in
    rw (idle_due-pauses cfg before t i c (ground arith) p f) (s, w, simp append-nil n)

pub data IsTimer : Event → Type 0 where
  idle_timer_due : (vm_ok : Bool) → IsTimer (idle_due vm_ok)
  stop_timer_due : IsTimer stop_due
  lease_timer_due : IsTimer lease_due

-- A history in which only timers act.
abbrev pub TimersOnly : List (ℕ × Event) → Type 0
TimersOnly [] = Unit
TimersOnly ((now, e) ∷ es) = IsTimer e × TimersOnly es

step-unarmed :
    (cfg : Config) (now : ℕ) (j : Instance) {e : Event}
    → IsTimer e
    → j.idle_timer ≡ none
    → j.stop_timer ≡ none
    → j.lease_timer ≡ none
    → step cfg now e j ≡ record { inst = j; effects = []; reply = done }
unfolding step
step-unarmed cfg now j (idle_timer_due vm_ok) a b c = ground arith
step-unarmed cfg now j stop_timer_due a b c = ground arith
step-unarmed cfg now j lease_timer_due a b c = ground arith

run-unarmed :
    (cfg : Config) (es : List (ℕ × Event)) (j : Instance)
    → TimersOnly es
    → j.idle_timer ≡ none
    → j.stop_timer ≡ none
    → j.lease_timer ≡ none
    → (run cfg es j).0 ≡ j
unfolding run
run-unarmed cfg [] j u a b c = refl
run-unarmed cfg ((now, e) ∷ es) j (u, v) a b c =
    rw (step-unarmed cfg now j u a b c) (run-unarmed cfg es j v a b c)

-- When the `PauseVM` of a due idle timer fails on a running instance that has no lease, whose other
-- timers are unarmed, the instance stays running for good as far as timers go: no history of timer
-- events that follows changes its state.
pub idle_due-strands :
    (cfg : Config) (now d : ℕ) (es : List (ℕ × Event)) (i : Instance)
    → i.state ≡ running
    → i.idle_timer ≡ some d
    → i.stop_timer ≡ none
    → i.lease_timer ≡ none
    → d ≤ now
    → TimersOnly es
    → (run cfg ((now, idle_due false) ∷ es) i).0.state ≡ running
unfolding run step pause_instance
idle_due-strands cfg now d es i r t s l h v =
    let j = (step cfg now (idle_due false) i).inst in
    let same : (run cfg es j).0 ≡ j =
      run-unarmed cfg es j v (ground arith) (ground arith) (ground arith) in
    ap (λ k. k.state) same ∙ ground arith
