-- ===== src/Daemons/Tracking.antt =====
-- Which processes run, in Daemons.
use aegisvm.Base.{
  ℕ, zero, suc, ◌+◌, ◌<◌, ◌≡◌, refl, ap, List, [], ◌∷◌, ◌++◌, Option, none, some, String, ◌==◌,
  ◌=s◌, leb, if◌then◌else◌, if_elim, if_cases, ℤ, pos, negsuc, All, All-append, arith,
}
use aegisvm.Kits.{Manifest, InstanceDaemon}
use aegisvm.Daemons.{
  Process, Daemons, procs_of, without, stop_daemons, stop_all, new_process, spawn_each, answered,
  unless_running, start_loaded, start_daemons, max_crashes, crashes, crashed, exited, has_pid,
  put_back, exit_in, holds, process_exits, restarted, waits, restart_in, is_waiting, delay_over,
  DaemonOp, starts, stops, stops_all, exits, restarts, daemon_op, daemon_ops,
}
use aegisvm.Daemons.Counting.{
  count, one, count_pids, count-remove_pid, count-stop_each, count_pids-append, count_pids-without,
  count_pids-exit_in, count_pids-restart_in, count-begun,
}

-- The processes that run are those of the table, each once, and none has crashed too often.
abbrev pub IsTracked : Daemons → Type 0
IsTracked d =
    ((n : ℕ) → count n d.live ≡ count_pids n d.procs)
    × All (λ p. p.crash_count < max_crashes) d.procs

abbrev Patient : List Process → Type 0
Patient = All (λ p. p.crash_count < max_crashes)

without-Patient : (id : String) (ps : List Process) → Patient ps → Patient (without id ps)
unfolding without
without-Patient id [] h = tt
without-Patient id (p ∷ ps) h =
    if_cases Patient (p.instance_id =s id) _ _ (without-Patient id ps h.1)
      (h.0, without-Patient id ps h.1)

stop_daemons-IsTracked : (id : String) (d : Daemons) → IsTracked d → IsTracked (stop_daemons id d)
unfolding stop_daemons
stop_daemons-IsTracked id d (t, h) = (
  λ n.
      omega (
        arith,
        count-stop_each n (procs_of id d.procs) d.live,
        count_pids-without n id d.procs,
        t n,
      ),
  without-Patient id d.procs h,
)

stop_all-IsTracked : (d : Daemons) → IsTracked d → IsTracked (stop_all d)
unfolding stop_all count_pids
stop_all-IsTracked d (t, h) = (λ n. omega (arith, count-stop_each n d.procs d.live, t n), tt)

one_more :
    (n p : ℕ) (d : Daemons) (started : List Process) (new : Process)
    → new.pid ≡ some p
    → count n d.live ≡ count_pids n d.procs + count_pids n started
    → count n (p ∷ d.live) ≡ count_pids n d.procs + count_pids n (started ++ (new ∷ []))
unfolding count count_pids
one_more n p d started new e h =
    let here : one n new.pid ≡ (if p == n then 1 else 0) = ap (one n) e in
    omega (arith, h, here, count_pids-append n started (new ∷ []))

spawn_each-IsTracked :
    (now : ℕ) (id handle : String) (env : List (String × String))
    (ds : List (InstanceDaemon × Option ℕ)) (started : List Process) (d : Daemons)
    → ((n : ℕ) → count n d.live ≡ count_pids n d.procs + count_pids n started)
    → Patient d.procs
    → Patient started
    → IsTracked (spawn_each now id handle env ds started d).0
unfolding spawn_each
spawn_each-IsTracked now id handle env [] started d t h k =
    (λ n. omega (arith, t n, count_pids-append n d.procs started), All-append _ d.procs started h k)
spawn_each-IsTracked now id handle env ((i, none) ∷ ds) started d t h k =
    (λ n. omega (arith, t n, count-stop_each n started d.live), h)
spawn_each-IsTracked now id handle env ((i, some p) ∷ ds) started d t h k =
    let new = new_process d.next_serial now id handle i.binary env p in
    spawn_each-IsTracked now id handle env ds (started ++ (new ∷ []))
      (record d { live = p ∷ d.live; next_serial = suc d.next_serial })
      (λ n. one_more n p d started new refl (t n)) h
      (All-append _ started (new ∷ []) k (omega arith, tt))

unless_running-IsTracked :
    (now : ℕ) (id handle : String) (env : List (String × String))
    (ds : List (InstanceDaemon × Option ℕ)) (ps : List Process) (d : Daemons)
    → IsTracked d
    → IsTracked (unless_running now id handle env ds ps d).0
unfolding unless_running count_pids
unless_running-IsTracked now id handle env ds [] d (t, h) =
    spawn_each-IsTracked now id handle env ds [] d (λ n. omega (arith, t n)) h tt
unless_running-IsTracked now id handle env ds (p ∷ ps) d t = t

start_daemons-IsTracked :
    (now : ℕ) (id handle : String) (m : Option Manifest) (env : List (String × String))
    (pids : List (Option ℕ)) (d : Daemons)
    → IsTracked d
    → IsTracked (start_daemons now id handle m env pids d).0
unfolding start_daemons start_loaded
start_daemons-IsTracked now id handle none env pids d t = t
start_daemons-IsTracked now id handle (some m) env pids d t =
    unless_running-IsTracked now id handle env (answered m.instance_daemons pids)
      (procs_of id d.procs) d t

crashed-Patient :
    (now : ℕ) (p : Process) (ps : List Process) → Patient ps → Patient (put_back (crashed now p) ps)
unfolding crashed
crashed-Patient now p ps h =
    if_elim (λ o. Patient (put_back o ps)) (leb max_crashes (crashes now p)) _ _ (λ t. h)
      (λ t. (ground arith, h))

exited-Patient :
    (now : ℕ) (code : ℤ) (p : Process) (ps : List Process)
    → Patient ps
    → Patient (put_back (exited now code p) ps)
unfolding exited
exited-Patient now (pos zero) p ps h = h
exited-Patient now (pos (suc c)) p ps h = crashed-Patient now p ps h
exited-Patient now (negsuc c) p ps h = crashed-Patient now p ps h

exit_in-Patient :
    (now k : ℕ) (code : ℤ) (ps : List Process) → Patient ps → Patient (exit_in now k code ps)
unfolding exit_in
exit_in-Patient now k code [] h = tt
exit_in-Patient now k code (p ∷ ps) h =
    if_cases Patient (has_pid k p.pid) _ _ (exited-Patient now code p ps h.1)
      (h.0, exit_in-Patient now k code ps h.1)

process_exits-IsTracked :
    (now k : ℕ) (code : ℤ) (d : Daemons) → IsTracked d → IsTracked (process_exits now k code d)
unfolding process_exits
process_exits-IsTracked now k code d (t, h) =
    if_elim IsTracked (holds k d.procs) _ _
      (λ there. (
        λ n. omega (
          arith,
          t n,
          count-remove_pid n k d.live,
          count_pids-exit_in n now k code d.procs there,
        ),
        exit_in-Patient now k code d.procs h,
      ))
      (λ absent. (t, h))

restarted-Patient :
    (now : ℕ) (answer : Option ℕ) (p : Process) (ps : List Process)
    → p.crash_count < max_crashes
    → Patient ps
    → Patient (put_back (restarted now answer p) ps)
unfolding restarted
restarted-Patient now none p ps k h = h
restarted-Patient now (some q) p ps k h = (k, h)

restart_in-Patient :
    (now serial : ℕ) (answer : Option ℕ) (ps : List Process)
    → Patient ps
    → Patient (restart_in now serial answer ps)
unfolding restart_in
restart_in-Patient now serial answer [] h = tt
restart_in-Patient now serial answer (p ∷ ps) h =
    if_cases Patient (waits serial p p.pid) _ _ (restarted-Patient now answer p ps h.0 h.1)
      (h.0, restart_in-Patient now serial answer ps h.1)

delay_over-IsTracked :
    (now serial : ℕ) (answer : Option ℕ) (d : Daemons)
    → IsTracked d
    → IsTracked (delay_over now serial answer d)
unfolding delay_over
delay_over-IsTracked now serial answer d (t, h) =
    if_elim IsTracked (is_waiting serial d.procs) _ _
      (λ there. (
        λ n. omega (
          arith,
          t n,
          count-begun n answer d.live,
          count_pids-restart_in n now serial answer d.procs there,
        ),
        restart_in-Patient now serial answer d.procs h,
      ))
      (λ absent. (t, h))

daemon_op-IsTracked :
    (now : ℕ) (o : DaemonOp) (d : Daemons) → IsTracked d → IsTracked (daemon_op now o d)
unfolding daemon_op
daemon_op-IsTracked now (starts id handle m env pids) d t =
    start_daemons-IsTracked now id handle m env pids d t
daemon_op-IsTracked now (stops id) d t = stop_daemons-IsTracked id d t
daemon_op-IsTracked now stops_all d t = stop_all-IsTracked d t
daemon_op-IsTracked now (exits k code) d t = process_exits-IsTracked now k code d t
daemon_op-IsTracked now (restarts serial answer) d t = delay_over-IsTracked now serial answer d t

-- No sidecar process is lost: where the processes that run are those of the table, each as often as it
-- stands there, and no entry has five crashes in a row, this is so after any sequence of starts, stops,
-- exits and restarts, whatever the operating system answers, failed starts included.
pub daemon_ops-IsTracked :
    (os : List (ℕ × DaemonOp)) (d : Daemons) → IsTracked d → IsTracked (daemon_ops os d)
unfolding daemon_ops
daemon_ops-IsTracked [] d t = t
daemon_ops-IsTracked ((now, o) ∷ os) d t =
    daemon_ops-IsTracked os (daemon_op now o d) (daemon_op-IsTracked now o d t)
