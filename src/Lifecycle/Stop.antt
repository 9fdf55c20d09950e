-- ===== src/Lifecycle/Stop.antt =====
-- manager.go: the ways an instance comes to a stop.
use aegisvm.Base.{
  ℕ, ◌+◌, ◌-◌, List, [], ◌∷◌, ◌++◌, map, Option, none, some, ℤ, pos, negsuc, false, not, ◌&&◌, ltb,
  eqb_ℤ, if◌then◌else◌,
}
use aegisvm.Lifecycle.Types.{
  State, stopped, paused, Instance, Effect, notify, stop_vm, resume_vm, shutdown_rpc, demux_stop,
  exec_exit, log_exit, done, Outcome, is_paused, is_stopped, is_live, crash_uptime,
}

-- Every exec that waits is told -1.
abbrev exits : Instance → List Effect
exits inst = map (λ e. exec_exit e (negsuc 0)) inst.exec_waiters

-- The assignments that all the ways share.
abbrev torn_down : ℕ → Instance → Instance
torn_down now inst = record inst {
  state = stopped;
  stopped_at = some now;
  channel = none;
  endpoints = [];
  demuxer = none;
  log_capture = false;
  updated_at = now;
}

abbrev stop_demux : Option ℕ → List Effect
stop_demux none = []
stop_demux (some ch) = demux_stop ch ∷ []

unfoldable pub shutdown_vm : Option ℕ → Option ℕ → List Effect
shutdown_vm none h = stop_vm h ∷ []
shutdown_vm (some ch) h = shutdown_rpc ch ∷ demux_stop ch ∷ stop_vm h ∷ []

-- A non-zero exit within 10 s of the last activity is a crash; any other resets the count.
unfoldable pub count_exit : ℕ → ℤ → Instance → Instance
count_exit now code inst =
    if not (eqb_ℤ code (pos 0)) && ltb (now - inst.last_activity) crash_uptime
    then record inst { crash_count = inst.crash_count + 1; last_crash_at = some now }
    else record inst { crash_count = 0 }

-- `handleProcessExited`.
unfoldable pub handle_process_exited : ℕ → ℤ → Instance → Outcome
unfolding count_exit
handle_process_exited now code inst =
    if is_live inst.state
    then record {
      inst = record (torn_down now (count_exit now code inst)) {
        idle_timer = none;
        stop_timer = none;
        lease_timer = none;
        lease_held = false;
        exec_waiters = [];
      };
      effects =
          exits inst
          ++ (log_exit code
              ∷ notify stopped
              ∷ (stop_demux inst.demuxer ++ (stop_vm inst.handle ∷ [])));
      reply = done;
    }
    else record { inst = inst; effects = []; reply = done }

-- `stopIdleInstance`, the stop timer's callback.
unfoldable pub stop_idle_instance : ℕ → Instance → Outcome
stop_idle_instance now inst =
    if is_paused inst.state
    then record {
      inst = torn_down now inst;
      effects = stop_demux inst.demuxer ++ (notify stopped ∷ stop_vm inst.handle ∷ []);
      reply = done;
    }
    else record { inst = inst; effects = []; reply = done }

-- The part that `StopInstance`, `DisableInstance` and `DeleteInstance` share.
abbrev halted : ℕ → Instance → Instance
halted now inst = record (torn_down now inst) {
  idle_timer = none;
  stop_timer = none;
  exec_waiters = [];
}

abbrev wake_first : State → Option ℕ → List Effect
wake_first paused h = resume_vm h ∷ []
wake_first _ h = []

-- `StopInstance`, but for the children, which `Manager.stop_tree` stops.
unfoldable pub stop_instance : ℕ → Instance → Outcome
unfolding shutdown_vm
stop_instance now inst =
    if is_stopped inst.state then record { inst = inst; effects = []; reply = done } else record {
      inst = halted now inst;
      effects =
          exits inst
          ++ (notify stopped
              ∷ (wake_first inst.state inst.handle ++ shutdown_vm inst.demuxer inst.handle));
      reply = done;
    }

-- `DisableInstance`: the flag goes first, and no shutdown call is sent.
unfoldable pub disable_instance : ℕ → Instance → Outcome
disable_instance now inst =
    let off : Instance = record inst { enabled = false } in
    if is_stopped inst.state then record { inst = off; effects = []; reply = done } else record {
      inst = halted now off;
      effects =
          exits inst
          ++ (notify stopped
              ∷ (wake_first inst.state inst.handle
                  ++ (stop_demux inst.demuxer ++ (stop_vm inst.handle ∷ []))));
      reply = done;
    }

-- `DeleteInstance`, as far as it concerns the instance itself.
unfoldable pub delete_instance : ℕ → Instance → Outcome
unfolding shutdown_vm
delete_instance now inst = record {
  inst = halted now inst;
  effects =
      exits inst
      ++ (notify stopped
          ∷ (wake_first inst.state inst.handle
              ++ (if is_stopped inst.state then [] else shutdown_vm inst.demuxer inst.handle)));
  reply = done;
}
