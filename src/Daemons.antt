-- ===== src/Daemons.antt =====
-- internal/daemon/manager.go: the processes beside an instance that its kit declares. A call runs to its
-- end before the next; the goroutine that monitors a process runs when the process exits and when its
-- delay is over. What `exec` answers is an argument: the id of a new process, or none.
pub mod Counting
pub mod Tracking
use aegisvm.Base.{
  ℕ, zero, suc, ◌+◌, ◌*◌, ◌-◌, List, [], ◌∷◌, ◌++◌, Option, none, some, String, Bool, true, false,
  not, ◌||◌, ◌==◌, ◌=s◌, ltb, leb, if◌then◌else◌, ℤ, pos, negsuc,
}
use aegisvm.Kits.{Manifest, InstanceDaemon}

-- `Process`, with what `monitor` keeps of it. `pid` is none while it waits to be restarted.
pub record Process : Type 0 where
  pub serial : ℕ
  pub instance_id : String
  pub handle : String
  pub binary : List ℕ
  pub instance_env : List (String × String)
  pub pid : Option ℕ
  pub crash_count : ℕ
  pub last_start : ℕ

-- The processes of all instances, each with its instance's id, which is its key in `procs`; and the
-- processes that the operating system runs.
pub record Daemons : Type 0 where
  pub procs : List Process
  pub live : List ℕ
  -- What tells one `Process` from another.
  pub next_serial : ℕ

abbrev pub no_daemons : Daemons
no_daemons = record { procs = []; live = []; next_serial = 0 }

-- A process that ended.
unfoldable pub remove_pid : ℕ → List ℕ → List ℕ
remove_pid p [] = []
remove_pid p (q ∷ qs) = let rest = remove_pid p qs in if q == p then qs else q ∷ rest

abbrev pub ended : Option ℕ → List ℕ → List ℕ
ended none live = live
ended (some p) live = remove_pid p live

-- `stop`, on each of some processes: it returns when the process was interrupted or killed.
unfoldable pub stop_each : List Process → List ℕ → List ℕ
unfolding remove_pid
stop_each [] live = live
stop_each (p ∷ ps) live = stop_each ps (ended p.pid live)

unfoldable pub procs_of : String → List Process → List Process
procs_of id [] = []
procs_of id (p ∷ ps) = let rest = procs_of id ps in if p.instance_id =s id then p ∷ rest else rest

unfoldable pub without : String → List Process → List Process
without id [] = []
without id (p ∷ ps) = let rest = without id ps in if p.instance_id =s id then rest else p ∷ rest

-- `StopDaemons`
unfoldable pub stop_daemons : String → Daemons → Daemons
unfolding stop_each procs_of without
stop_daemons id d = record d {
  procs = without id d.procs;
  live = stop_each (procs_of id d.procs) d.live;
}

-- `StopAll`
unfoldable pub stop_all : Daemons → Daemons
unfolding stop_each
stop_all d = record d { procs = []; live = stop_each d.procs d.live }

abbrev any_running : List Process → Bool
any_running [] = false
any_running (p ∷ ps) = true

-- `IsRunning`; a process that gave up is not in the table.
unfoldable pub is_running : String → Daemons → Bool
unfolding procs_of
is_running id d = any_running (procs_of id d.procs)

abbrev pub new_process : ℕ → ℕ → String → String → List ℕ → List (String × String) → ℕ → Process
new_process serial now id handle binary env p = record {
  serial = serial;
  instance_id = id;
  handle = handle;
  binary = binary;
  instance_env = env;
  pid = some p;
  crash_count = 0;
  last_start = now;
}

-- The loop of `StartDaemons`: a failure stops what was started.
unfoldable pub spawn_each :
    ℕ
    → String
    → String
    → List (String × String)
    → List (InstanceDaemon × Option ℕ)
    → List Process
    → Daemons
    → Daemons × Bool
unfolding stop_each
spawn_each now id handle env [] started d = (record d { procs = d.procs ++ started }, true)
spawn_each now id handle env ((i, none) ∷ ds) started d =
    (record d { live = stop_each started d.live }, false)
spawn_each now id handle env ((i, some p) ∷ ds) started d =
    spawn_each now id handle env ds
      (started ++ (new_process d.next_serial now id handle i.binary env p ∷ []))
      (record d { live = p ∷ d.live; next_serial = suc d.next_serial })

-- The daemons of a manifest with what `spawn` answers for each; a missing answer is a failure.
abbrev pub answered : List InstanceDaemon → List (Option ℕ) → List (InstanceDaemon × Option ℕ)
answered [] pids = []
answered (i ∷ rest) [] = (i, none) ∷ answered rest []
answered (i ∷ rest) (a ∷ pids) = (i, a) ∷ answered rest pids

unless_running :
    ℕ
    → String
    → String
    → List (String × String)
    → List (InstanceDaemon × Option ℕ)
    → List Process
    → Daemons
    → Daemons × Bool
unfolding spawn_each
unless_running now id handle env ds [] d = spawn_each now id handle env ds [] d
unless_running now id handle env ds (p ∷ ps) d = (d, true)

start_loaded :
    ℕ
    → String
    → String
    → List (String × String)
    → List (Option ℕ)
    → Option Manifest
    → Daemons
    → Daemons × Bool
unfolding unless_running procs_of
start_loaded now id handle env pids none d = (d, false)
start_loaded now id handle env pids (some m) d =
    unless_running now id handle env (answered m.instance_daemons pids) (procs_of id d.procs) d

-- `StartDaemons`, for a kit that has a name; false is an error.
unfoldable pub start_daemons :
    ℕ
    → String
    → String
    → Option Manifest
    → List (String × String)
    → List (Option ℕ)
    → Daemons
    → Daemons × Bool
unfolding start_loaded
start_daemons now id handle manifest env pids d = start_loaded now id handle env pids manifest d

abbrev pub seconds : ℕ
seconds = 1000000000

abbrev pub max_crashes : ℕ
max_crashes = 5

-- How many crashes there were in a row, with this one.
abbrev pub crashes : ℕ → Process → ℕ
crashes now p = if ltb (now - p.last_start) (10 * seconds) then suc p.crash_count else 1

-- What `monitor` does when its process exits: it is given up on a clean exit and after too many
-- crashes, and else waits.
unfoldable pub crashed : ℕ → Process → Option Process
crashed now p =
    if leb max_crashes (crashes now p)
    then none
    else some (record p { pid = none; crash_count = crashes now p })

unfoldable pub exited : ℕ → ℤ → Process → Option Process
unfolding crashed
exited now (pos zero) p = none
exited now (pos (suc n)) p = crashed now p
exited now (negsuc n) p = crashed now p

-- The delay before the next start.
abbrev pub restart_delay : Process → ℕ
restart_delay p = p.crash_count * seconds

abbrev has_pid : ℕ → Option ℕ → Bool
has_pid p none = false
has_pid p (some q) = q == p

abbrev pub put_back : Option Process → List Process → List Process
put_back none ps = ps
put_back (some p) ps = p ∷ ps

unfoldable pub exit_in : ℕ → ℕ → ℤ → List Process → List Process
unfolding exited
exit_in now n code [] = []
exit_in now n code (p ∷ ps) =
    let rest = exit_in now n code ps in
    if has_pid n p.pid then put_back (exited now code p) ps else p ∷ rest

unfoldable pub holds : ℕ → List Process → Bool
holds n [] = false
holds n (p ∷ ps) = has_pid n p.pid || holds n ps

-- A monitored process exits with a code.
unfoldable pub process_exits : ℕ → ℕ → ℤ → Daemons → Daemons
unfolding exit_in remove_pid holds
process_exits now n code d =
    if holds n d.procs
    then record d { procs = exit_in now n code d.procs; live = remove_pid n d.live }
    else d

-- A process that waited is started again, or given up.
unfoldable pub restarted : ℕ → Option ℕ → Process → Option Process
restarted now none p = none
restarted now (some n) p = some (record p { pid = some n; last_start = now })

abbrev pub waits : ℕ → Process → Option ℕ → Bool
waits serial p none = p.serial == serial
waits serial p (some n) = false

unfoldable pub restart_in : ℕ → ℕ → Option ℕ → List Process → List Process
unfolding restarted
restart_in now serial answer [] = []
restart_in now serial answer (p ∷ ps) =
    let rest = restart_in now serial answer ps in
    if waits serial p p.pid then put_back (restarted now answer p) ps else p ∷ rest

unfoldable pub is_waiting : ℕ → List Process → Bool
is_waiting serial [] = false
is_waiting serial (p ∷ ps) = waits serial p p.pid || is_waiting serial ps

abbrev pub begun : Option ℕ → List ℕ → List ℕ
begun none live = live
begun (some n) live = n ∷ live

-- The delay of a process that waits is over; the answer is that of `Start`. A process that was
-- stopped in the meantime is not started.
unfoldable pub delay_over : ℕ → ℕ → Option ℕ → Daemons → Daemons
unfolding restart_in is_waiting
delay_over now serial answer d =
    if is_waiting serial d.procs
    then record d { procs = restart_in now serial answer d.procs; live = begun answer d.live }
    else d

-- The calls and what befalls the processes.
pub data DaemonOp : Type 0 where
  starts : String → String → Option Manifest → List (String × String) → List (Option ℕ) → DaemonOp
  stops : String → DaemonOp
  stops_all : DaemonOp
  exits : ℕ → ℤ → DaemonOp
  restarts : ℕ → Option ℕ → DaemonOp

unfoldable pub daemon_op : ℕ → DaemonOp → Daemons → Daemons
daemon_op now (starts id handle m env pids) d = (start_daemons now id handle m env pids d).0
daemon_op now (stops id) d = stop_daemons id d
daemon_op now stops_all d = stop_all d
daemon_op now (exits n code) d = process_exits now n code d
daemon_op now (restarts serial answer) d = delay_over now serial answer d

-- Each at its time.
unfoldable pub daemon_ops : List (ℕ × DaemonOp) → Daemons → Daemons
unfolding daemon_op
daemon_ops [] d = d
daemon_ops ((now, o) ∷ os) d = daemon_ops os (daemon_op now o d)
