-- ===== src/Gateway/Scheduler/Due.antt =====
-- Which scheduled tasks of cmd/aegis-agent/cron.go are fired by cmd/aegis-gateway/main.go.
use aegisvm.Base.{
  ℕ, suc, ◌+◌, ◌≤◌, ◌≡◌, refl, ap, subst, ◌∙◌, ◌≢◌, List, [], ◌∷◌, ◌++◌, Option, none, some, String,
  Bool, true, false, ◌&&◌, leb, ◌=s◌, if◌then◌else◌, All, length, same_text, same_text_refl,
  same_text_eq, arith,
}
use aegisvm.Cron.{Schedule, Moment, parse, matches}
use aegisvm.Agent.Schedules.{CronEntry, CronFile, file, absent, has_id, CronOp, run_ops}
use aegisvm.Agent.Schedules.Ids.{IsUnique}
use aegisvm.Agent.Schedules.Tasks.{IsTask, IsCronFile, IsDisk, run_ops-IsDisk}
use aegisvm.Gateway.Scheduler.{
  GwCronEntry, Scheduler, parsed, at_time, loaded_entry, load_entries, take_contents,
  check_cron_change, Minute, Firing, last_fired, visit, visit_all, evaluate_cron,
}
use aegisvm.Gateway.Scheduler.Visits.{
  fires, firing, visit-fired, visit-other, visit_all-Settled, visit_all-quiet,
}

-- The expression matches the time, if it is one.
abbrev matches_any : Option Schedule → Moment → Bool
matches_any none t = false
matches_any (some s) t = matches s t

-- What is to be fired at a time: the enabled entries whose expression matches, in the file's order.
abbrev pub due : Moment → List CronEntry → List Firing
due t [] = []
due t (e ∷ es) =
    let rest = due t es in
    if e.enabled && matches_any (parse e.schedule) t
    then record { id = e.id; session = e.session; message = e.message } ∷ rest
    else rest

if-append :
    (b : Bool) (f : Firing) (fs : List Firing)
    → (if b then f ∷ [] else []) ++ fs ≡ (if b then f ∷ fs else fs)
if-append true f fs = refl
if-append false f fs = refl

module _ (m : Minute) where
  -- None of the tasks has fired at the minute.
  abbrev pub Unfired : List (List ℕ × String) → List CronEntry → Type 0
  Unfired st es = All (λ (e : CronEntry). (last_fired e.id st =s m.key) ≡ false) es

  Unfired-visit :
      (g : GwCronEntry) (es : List CronEntry) (st : List (List ℕ × String))
      → has_id g.id es ≡ false
      → Unfired st es
      → Unfired (visit m g st).0 es
  unfolding has_id
  Unfired-visit g [] st h u = tt
  Unfired-visit g (e ∷ es) st h u =
      let ne : same_text g.id e.id ≡ false =
        ground (arith, same_text_eq g.id e.id, same_text_refl e.id, ap (λ i. same_text e.id i)) in
      (
        ap (λ k. k =s m.key) (visit-other m e.id g st ne) ∙ u.0,
        Unfired-visit g es st (ground arith) u.1,
      )

  loaded_entry-due :
      (n : ℕ) (e : CronEntry) (o : Option Schedule) (es : List CronEntry)
      (st : List (List ℕ × String))
      → n + suc (length es) ≤ 20
      → parse e.schedule ≡ o
      → o ≢ none
      → has_id e.id es ≡ false
      → Unfired st (e ∷ es)
      → ((k : ℕ) (st' : List (List ℕ × String))
          → k + length es ≤ 20
          → Unfired st' es
          → (visit_all m (load_entries k es) st').1 ≡ due m.moment es)
      → (visit_all m (loaded_entry n e o (λ k. load_entries k es)) st).1 ≡ due m.moment (e ∷ es)
  unfolding visit_all loaded_entry
  loaded_entry-due n e none es st h p q f u ih = absurd (q refl)
  loaded_entry-due n e (some s) es st h p q f u ih =
      let g : GwCronEntry = record {
        id = e.id;
        schedule = s;
        message = e.message;
        session = e.session;
        enabled = e.enabled;
      } in
      let rest = ih (n + 1) (visit m g st).0 (omega arith) (Unfired-visit g es st f u.1) in
      rw (visit-fired m g st u.0, rest, p) (if-append (fires m g) (firing m g) (due m.moment es))

  visit_all-due :
      (n : ℕ) (es : List CronEntry) (st : List (List ℕ × String))
      → n + length es ≤ 20
      → All IsTask es
      → IsUnique es
      → Unfired st es
      → (visit_all m (load_entries n es) st).1 ≡ due m.moment es
  unfolding load_entries visit_all
  visit_all-due n [] st h t v u = refl
  visit_all-due n (e ∷ es) st h t v u =
      let room : leb 20 n ≡ false = ground arith in
      rw room (
        loaded_entry-due n e (parse e.schedule) es st h refl t.0.schedule v.0 u
          (λ k st' h' u'. visit_all-due k es st' h' t.1 v.1 u'))

check_cron_change-parsed :
    (t : ℕ) (cf : CronFile) (g : Scheduler)
    → t ≢ g.mtime
    → check_cron_change (at_time t (parsed cf)) g
      ≡ record { entries = load_entries 0 cf.entries; state = g.state; mtime = t }
unfolding check_cron_change take_contents
check_cron_change-parsed t cf g h = ground arith

-- The tasks of the agent are fired by the gateway: when the task file, after any calls on an absent
-- one, is found with a time other than the one last seen, and none of its ids is noted as fired at
-- the minute, the next evaluation fires exactly the enabled entries whose expression matches the
-- minute, in the file's order, and another one at the same minute fires nothing.
pub evaluate_cron-run_ops :
    (os : List CronOp) (cf : CronFile) (g : Scheduler) (t : ℕ) (m : Minute)
    → run_ops os absent ≡ file cf
    → t ≢ g.mtime
    → Unfired m g.state cf.entries
    → let first = evaluate_cron m (check_cron_change (at_time t (parsed cf)) g) in
      (first.1 ≡ due m.moment cf.entries) × ((evaluate_cron m first.0).1 ≡ [])
unfolding evaluate_cron
evaluate_cron-run_ops os cf g t m h n u =
    let sound : IsCronFile cf = subst IsDisk h (run_ops-IsDisk os absent tt) in
    rw (check_cron_change-parsed t cf g n) (
      visit_all-due m 0 cf.entries g.state (omega (arith, sound.few)) sound.tasks sound.unique u,
      visit_all-quiet m (load_entries 0 cf.entries) _
          (visit_all-Settled m (load_entries 0 cf.entries) g.state),
    )
