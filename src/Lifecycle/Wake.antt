-- ===== src/Lifecycle/Wake.antt =====
-- manager.go: `EnsureInstance`, `StartInstance` and `ExecInstance`, seen from the instance.
use aegisvm.Base.{ℕ, List, [], ◌∷◌, none, some, String, ℤ, Bool, true, false, if◌then◌else◌, ◌=s◌}
use aegisvm.Lifecycle.Types.{
  State, stopped, starting, running, paused, Instance, Config, exec_exit, disabled, exec_stopped,
  no_channel, exec_failed, done, failed, Outcome,
}
use aegisvm.Lifecycle.Boot.{BootIo, Poll, boot_instance, wait_for_running}
use aegisvm.Lifecycle.Idle.{resume_instance}

-- What a call that may boot or resume learns from outside: the boot's end and answers, what a
-- waiter sees, and whether `ResumeVM` succeeds.
pub record WakeIo : Type 0 where
  pub later : ℕ
  pub boot : BootIo
  pub polls : List Poll
  pub resume_ok : Bool

-- The switch on the state that both entry points share.
unfoldable pub wake : Config → ℕ → WakeIo → Instance → State → Outcome
wake cfg now io inst running = record { inst = inst; effects = []; reply = done }
wake cfg now io inst paused = resume_instance cfg now io.resume_ok inst
wake cfg now io inst stopped = boot_instance cfg now io.later io.boot io.polls inst
wake cfg now io inst starting = record {
  inst = inst;
  effects = [];
  reply = wait_for_running io.polls;
}

unfoldable pub ensure_instance : Config → ℕ → WakeIo → Instance → Outcome
unfolding wake
ensure_instance cfg now io inst =
    if inst.enabled
    then wake cfg now io inst inst.state
    else record { inst = inst; effects = []; reply = failed disabled }

unfoldable pub start_instance : Config → ℕ → WakeIo → Instance → Outcome
unfolding wake
start_instance cfg now io inst = wake cfg now io (record inst { enabled = true }) inst.state

-- The guest's answer to the `exec` call.
pub data ExecReply : Type 0 where
  exec_error : ExecReply
  exec_ok : ExecReply

-- `delete(inst.execWaiters, execID)`.
unfoldable pub remove_waiter : String → List String → List String
remove_waiter e [] = []
remove_waiter e (x ∷ xs) = let rest = remove_waiter e xs in if x =s e then rest else x ∷ rest

-- The waiter is registered before the call and withdrawn if the call fails.
exec_on : ExecReply → String → Outcome → Outcome
unfolding remove_waiter
exec_on r e o =
    let registered = e ∷ remove_waiter e o.inst.exec_waiters in
    elim o.inst.demuxer [
      | none ↦ record { inst = o.inst; effects = o.effects; reply = failed no_channel }
      | some ch ↦ elim r [
        | exec_ok ↦ record {
          inst = record o.inst { exec_waiters = registered };
          effects = o.effects;
          reply = done;
        }
        | exec_error ↦ record {
          inst = record o.inst { exec_waiters = remove_waiter e registered };
          effects = o.effects;
          reply = failed exec_failed;
        }
      ]
    ]

-- A call goes on if it has been brought to a running instance.
and_exec : ExecReply → String → Outcome → Outcome
unfolding exec_on
and_exec r e o = elim o.reply [ done ↦ exec_on r e o | _ ↦ o ]

ready : Config → ℕ → WakeIo → Instance → State → Outcome
ready cfg now io inst running = record { inst = inst; effects = []; reply = done }
ready cfg now io inst paused = resume_instance cfg now io.resume_ok inst
ready cfg now io inst stopped = record { inst = inst; effects = []; reply = failed exec_stopped }
ready cfg now io inst starting = record {
  inst = inst;
  effects = [];
  reply = wait_for_running io.polls;
}

unfoldable pub exec_instance : Config → ℕ → WakeIo → ExecReply → String → Instance → Outcome
unfolding and_exec ready
exec_instance cfg now io r e inst =
    if inst.enabled
    then and_exec r e (ready cfg now io inst inst.state)
    else record { inst = inst; effects = []; reply = failed disabled }

has_waiter : String → List String → Bool
has_waiter e [] = false
has_waiter e (x ∷ xs) = if x =s e then true else has_waiter e xs

-- The guest's `execDone` notification.
unfoldable pub exec_done : String → ℤ → Instance → Outcome
unfolding remove_waiter has_waiter
exec_done e code inst =
    if has_waiter e inst.exec_waiters
    then record {
      inst = record inst { exec_waiters = remove_waiter e inst.exec_waiters };
      effects = exec_exit e code ∷ [];
      reply = done;
    }
    else record { inst = inst; effects = []; reply = done }
