-- ===== src/Lifecycle/Idle.antt =====
-- manager.go: activity, leases, pausing and resuming. Each call of the source is one function; the
-- timers' callbacks are those that `Events` runs when a timer is due.
use aegisvm.Base.{
  ℕ, ◌+◌, ◌-◌, [], ◌∷◌, none, some, String, Bool, true, false, not, ◌&&◌, ◌==◌, if◌then◌else◌,
}
use aegisvm.Lifecycle.Types.{
  running, paused, IdlePolicy, default, leases_only, Instance, Config, notify, pause_vm, resume_vm,
  resume_failed, done, failed, Outcome, is_running, is_paused,
}

-- `startIdleTimer`: the old timer is stopped, a new one set.
unfoldable pub start_idle_timer : Config → ℕ → Instance → Instance
start_idle_timer cfg now inst = record inst { idle_timer = some (now + cfg.pause_after_idle) }

unfoldable pub reset_activity : ℕ → Instance → Instance
reset_activity now inst = record inst {
  last_activity = now;
  active_conns = inst.active_conns + 1;
  idle_timer = none;
}

-- `activeConns--` with the clamp at 0 is the truncated `-`.
unfoldable pub on_connection_close : Config → ℕ → Instance → Instance
unfolding start_idle_timer
on_connection_close cfg now inst =
    let closed : Instance = record inst {
      active_conns = inst.active_conns - 1;
      last_activity = now;
    } in
    if inst.active_conns - 1 == 0 then start_idle_timer cfg now closed else closed

abbrev ignores_activity : IdlePolicy → Bool
ignores_activity leases_only = true
ignores_activity default = false

-- The harness's `activity` notification.
unfoldable pub bump_activity : Config → ℕ → Instance → Instance
unfolding start_idle_timer
bump_activity cfg now inst =
    let bumped : Instance = record inst { last_activity = now } in
    if ignores_activity inst.spec.idle_policy
    then inst
    else if is_running inst.state && inst.active_conns == 0 && not inst.lease_held
    then start_idle_timer cfg now bumped
    else bumped

-- The `keepalive` notification, with `ttl` in nanoseconds.
unfoldable pub acquire_lease : ℕ → ℕ → String → Instance → Instance
acquire_lease now ttl reason inst = record inst {
  lease_held = true;
  lease_reason = reason;
  lease_expiry = now + ttl;
  last_activity = now;
  idle_timer = none;
  lease_timer = some (now + ttl);
}

-- `keepalive.release`, and the lease timer's callback.
unfoldable pub release_lease : Config → ℕ → Instance → Instance
unfolding start_idle_timer
release_lease cfg now inst =
    let released : Instance = record inst {
      lease_held = false;
      lease_reason = "";
      lease_timer = none;
    } in
    if is_running inst.state && inst.active_conns == 0
    then start_idle_timer cfg now released
    else released

-- The first critical section of `pauseInstance`: whether it goes on to `PauseVM`.
unfoldable pub may_pause : Instance → Bool
may_pause inst = is_running inst.state && inst.active_conns == 0 && not inst.lease_held

-- What it does once `PauseVM` has returned, from the state that it then finds.
unfoldable pub pause_commit : Config → ℕ → Instance → Instance
pause_commit cfg now inst =
    let halted : Instance = record inst { state = paused; updated_at = now } in
    if cfg.persistent_pause
    then halted
    else record halted { stop_timer = some (now + cfg.stop_after_idle) }

-- `pauseInstance`; `vm_ok` is whether `PauseVM` succeeds.
unfoldable pub pause_instance : Config → ℕ → Bool → Instance → Outcome
unfolding may_pause pause_commit
pause_instance cfg now vm_ok inst =
    if may_pause inst
    then if vm_ok
      then record {
        inst = pause_commit cfg now inst;
        effects = pause_vm inst.handle ∷ notify paused ∷ [];
        reply = done;
      }
      else record { inst = inst; effects = pause_vm inst.handle ∷ []; reply = done }
    else record { inst = inst; effects = []; reply = done }

unfoldable pub resume_commit : Config → ℕ → Instance → Instance
unfolding start_idle_timer
resume_commit cfg now inst =
    start_idle_timer cfg now
      (record inst { state = running; last_activity = now; stop_timer = none; updated_at = now })

-- `resumeInstance`; `vm_ok` is whether `ResumeVM` succeeds.
unfoldable pub resume_instance : Config → ℕ → Bool → Instance → Outcome
unfolding resume_commit
resume_instance cfg now vm_ok inst =
    if is_paused inst.state
    then if vm_ok
      then record {
        inst = resume_commit cfg now inst;
        effects = resume_vm inst.handle ∷ notify running ∷ [];
        reply = done;
      }
      else record {
        inst = inst;
        effects = resume_vm inst.handle ∷ [];
        reply = failed resume_failed;
      }
    else record { inst = inst; effects = []; reply = done }
