-- ===== src/Daemons/Counting.antt =====
-- How often a process runs, and how often it stands in the table, in Daemons.
use aegisvm.Base.{
  ℕ, zero, suc, ◌+◌, ◌-◌, ◌≡◌, refl, List, [], ◌∷◌, ◌++◌, Option, none, some, String, true, ◌==◌,
  leb, if◌then◌else◌, if_elim, if_cases, ℤ, pos, negsuc, arith,
}
use aegisvm.Daemons.{
  Process, remove_pid, ended, stop_each, procs_of, without, max_crashes, crashes, crashed, exited,
  has_pid, put_back, exit_in, holds, restarted, waits, restart_in, is_waiting, begun,
}

-- How often a number occurs.
unfoldable pub count : ℕ → List ℕ → ℕ
count n [] = 0
count n (m ∷ ms) = (if m == n then 1 else 0) + count n ms

abbrev pub one : ℕ → Option ℕ → ℕ
one n none = 0
one n (some m) = if m == n then 1 else 0

-- How many processes of a table have the number.
unfoldable pub count_pids : ℕ → List Process → ℕ
count_pids n [] = 0
count_pids n (p ∷ ps) = one n p.pid + count_pids n ps

pub count-remove_pid :
    (n p : ℕ) (live : List ℕ)
    → count n (remove_pid p live) ≡ count n live - (if p == n then 1 else 0)
unfolding count remove_pid
count-remove_pid n p [] = ground arith
count-remove_pid n p (q ∷ live) = ground (arith, count-remove_pid n p live)

pub count-ended :
    (n : ℕ) (o : Option ℕ) (live : List ℕ) → count n (ended o live) ≡ count n live - one n o
count-ended n none live = omega arith
count-ended n (some p) live = count-remove_pid n p live

pub count-stop_each :
    (n : ℕ) (ps : List Process) (live : List ℕ)
    → count n (stop_each ps live) ≡ count n live - count_pids n ps
unfolding stop_each count_pids
count-stop_each n [] live = omega arith
count-stop_each n (p ∷ ps) live =
    omega (arith, count-stop_each n ps (ended p.pid live), count-ended n p.pid live)

pub count_pids-append :
    (n : ℕ) (ps qs : List Process) → count_pids n (ps ++ qs) ≡ count_pids n ps + count_pids n qs
unfolding count_pids
count_pids-append n [] qs = omega arith
count_pids-append n (p ∷ ps) qs = omega (arith, count_pids-append n ps qs)

pub count_pids-without :
    (n : ℕ) (id : String) (ps : List Process)
    → count_pids n (without id ps) + count_pids n (procs_of id ps) ≡ count_pids n ps
unfolding count_pids without procs_of
count_pids-without n id [] = omega arith
count_pids-without n id (p ∷ ps) = ground (arith, count_pids-without n id ps)

has_pid-one : (n k : ℕ) (o : Option ℕ) → has_pid k o ≡ true → one n o ≡ (if k == n then 1 else 0)
has_pid-one n k none h = cc
has_pid-one n k (some q) h = ground arith

crashed-pid :
    (n now : ℕ) (p : Process) (ps : List Process)
    → count_pids n (put_back (crashed now p) ps) ≡ count_pids n ps
unfolding crashed count_pids
crashed-pid n now p ps =
    if_cases (λ o. count_pids n (put_back o ps) ≡ count_pids n ps) (leb max_crashes (crashes now p))
      _ _ refl (omega arith)

exited-pid :
    (n now : ℕ) (code : ℤ) (p : Process) (ps : List Process)
    → count_pids n (put_back (exited now code p) ps) ≡ count_pids n ps
unfolding exited
exited-pid n now (pos zero) p ps = refl
exited-pid n now (pos (suc c)) p ps = crashed-pid n now p ps
exited-pid n now (negsuc c) p ps = crashed-pid n now p ps

pub count_pids-exit_in :
    (n now k : ℕ) (code : ℤ) (ps : List Process)
    → holds k ps ≡ true
    → count_pids n (exit_in now k code ps) + (if k == n then 1 else 0) ≡ count_pids n ps
unfolding exit_in holds count_pids
count_pids-exit_in n now k code [] h = cc
count_pids-exit_in n now k code (p ∷ ps) h =
    if_elim (λ qs. count_pids n qs + (if k == n then 1 else 0) ≡ one n p.pid + count_pids n ps)
      (has_pid k p.pid) _ _
      (λ t. omega (arith, exited-pid n now code p ps, has_pid-one n k p.pid t))
      (λ t.
        let tail : holds k ps ≡ true = ground arith in
        omega (arith, count_pids-exit_in n now k code ps tail))

waits-one : (n serial : ℕ) (p : Process) (o : Option ℕ) → waits serial p o ≡ true → one n o ≡ 0
waits-one n serial p none h = refl
waits-one n serial p (some q) h = cc

restarted-pid :
    (n now : ℕ) (answer : Option ℕ) (p : Process) (ps : List Process)
    → count_pids n (put_back (restarted now answer p) ps) ≡ one n answer + count_pids n ps
unfolding restarted count_pids
restarted-pid n now none p ps = omega arith
restarted-pid n now (some q) p ps = refl

pub count_pids-restart_in :
    (n now serial : ℕ) (answer : Option ℕ) (ps : List Process)
    → is_waiting serial ps ≡ true
    → count_pids n (restart_in now serial answer ps) ≡ one n answer + count_pids n ps
unfolding restart_in is_waiting count_pids
count_pids-restart_in n now serial answer [] h = cc
count_pids-restart_in n now serial answer (p ∷ ps) h =
    if_elim (λ qs. count_pids n qs ≡ one n answer + (one n p.pid + count_pids n ps))
      (waits serial p p.pid) _ _
      (λ t. omega (arith, restarted-pid n now answer p ps, waits-one n serial p p.pid t))
      (λ t.
        let tail : is_waiting serial ps ≡ true = ground arith in
        omega (arith, count_pids-restart_in n now serial answer ps tail))

pub count-begun :
    (n : ℕ) (o : Option ℕ) (live : List ℕ) → count n (begun o live) ≡ one n o + count n live
unfolding count
count-begun n none live = omega arith
count-begun n (some q) live = refl
