-- ===== src/Api/Instances/Executing.antt =====
-- internal/api/server.go: `handleExecInstance` up to its first answer, which wakes the instance. The lines
-- of output that follow are left out, and so are the variables, which only go to the guest.
use aegisvm.Base.{ℕ, List, [], ◌∷◌, ◌++◌, Option, none, some, String}
use aegisvm.Lifecycle.Types.{Instance, Reply, disabled, failed, done, waiting}
use aegisvm.Lifecycle.Manager.{Answer, handle}
use aegisvm.Lifecycle.Wake.{WakeIo, ExecReply}
use aegisvm.Lifecycle.Events.{ensures, execs}
use aegisvm.Api.Instances.{Server, Response, plain_reply, find_instance}
use aegisvm.Api.Instances.Exposing.{told}

-- What the two calls of the manager learn from outside: `EnsureInstance`, and then `ExecInstance`, its
-- time, the answer of the guest, and the new id of the exec.
pub record ExecIo : Type 0 where
  pub wake : WakeIo
  pub later : ℕ
  pub resume : WakeIo
  pub guest : ExecReply
  pub exec_id : String

-- The status of a call's answer. A call that waits ends with its context, which is an error.
abbrev pub exec_status : ℕ → Reply → ℕ
exec_status other done = 200
exec_status other (failed disabled) = 409
exec_status other (failed _) = other
exec_status other waiting = other

-- The answer after a call of the manager; the registry hears of the states.
abbrev pub exec_answer : ℕ → ℕ → Server → Answer → Response
exec_answer now other s a = record (plain_reply (exec_status other a.reply) (told now s a)) {
  effects = a.effects;
}

-- `ExecInstance`, if `EnsureInstance` has answered that the instance runs.
abbrev pub exec_awake : ExecIo → String → Response → Reply → Response
exec_awake io id r (failed e) = r
exec_awake io id r waiting = r
exec_awake io id r done =
    let b = handle r.server.manager id io.later (execs io.resume io.guest io.exec_id) in
    record (exec_answer io.later 500 r.server b) { effects = r.effects ++ b.effects }

unfoldable pub exec_allowed : ℕ → ExecIo → Server → Instance → Response
exec_allowed now io s i =
    let a = handle s.manager i.spec.id now (ensures io.wake) in
    exec_awake io i.spec.id (exec_answer now 503 s a) a.reply

abbrev pub exec_found : ℕ → ExecIo → Option (List String) → Server → Option Instance → Response
exec_found now io command s none = plain_reply 404 s
exec_found now io none s (some i) = plain_reply 400 s
exec_found now io (some []) s (some i) = plain_reply 400 s
exec_found now io (some (c ∷ cs)) s (some i) = exec_allowed now io s i

-- `handleExecInstance`; the command is none if the request does not decode.
unfoldable pub handle_exec_instance : ℕ → ExecIo → String → Option (List String) → Server → Response
unfolding exec_allowed find_instance
handle_exec_instance now io key command s =
    exec_found now io command s (find_instance key s.manager)
