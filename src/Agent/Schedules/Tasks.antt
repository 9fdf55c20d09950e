-- ===== src/Agent/Schedules/Tasks.antt =====
-- What stays true of the file of scheduled tasks (cmd/aegis-agent/cron.go) over any calls.
use aegisvm.Base.{
  ℕ, ◌+◌, ◌≤◌, ◌≡◌, refl, ap, ◌∙◌, ◌≢◌, ◌⊎◌, List, [], ◌∷◌, Option, none, some, String, Bool, false,
  ltb, leb, ◌==◌, =s_iff, if_cases, if_elim, All, All-append, length, length-append, byte_length,
  same_text, arith,
}
use aegisvm.Cron.{Schedule, parse}
use aegisvm.Agent.Schedules.{
  max_cron_entries, CronEntry, CronFile, Disk, file, absent, unreadable, CronReply, load, save,
  cron_id, CreateRequest, CronError, create_check, parse_checked, conflict_rule, new_entry,
  create_in, create_checked, create, has_id, remaining, delete_in, delete, switched, set_enabled_in,
  set_enabled, CronOp, creates, deletes, switches, run_op, run_ops,
}
use aegisvm.Agent.Schedules.Ids.{
  IsGiven, IsUnique, has_id-fresh, IsUnique-append, IsGiven-suc, IsUnique-remaining,
  IsUnique-switched, length-remaining, length-switched,
}

-- An entry as `Create` admits it.
pub record IsTask (e : CronEntry) : Type 0 where
  pub schedule : parse e.schedule ≢ none
  pub message : e.message ≢ []
  pub short : byte_length e.message ≤ 1000
  pub conflict : (e.on_conflict ≡ "skip") ⊎ (e.on_conflict ≡ "queue")

pub record IsCronFile (cf : CronFile) : Type 0 where
  pub few : length cf.entries ≤ max_cron_entries
  pub tasks : All IsTask cf.entries
  pub given : All (IsGiven cf.next_id) cf.entries
  pub unique : IsUnique cf.entries

abbrev pub IsDisk : Disk → Type 0
IsDisk (file cf) = IsCronFile cf
IsDisk absent = Unit
IsDisk unreadable = Unit

abbrev pub IsLoaded : Option CronFile → Type 0
IsLoaded none = Unit
IsLoaded (some cf) = IsCronFile cf

pub load-IsLoaded : (d : Disk) → IsDisk d → IsLoaded (load d)
unfolding load
load-IsLoaded (file cf) v = v
load-IsLoaded absent v = record { few = omega arith; tasks = tt; given = tt; unique = tt }
load-IsLoaded unreadable v = tt

save-IsDisk :
    (saves : Bool) (cf : CronFile) (answer : CronReply) (d : Disk)
    → IsDisk d
    → IsCronFile cf
    → IsDisk (save saves cf answer d).0
unfolding save
save-IsDisk saves cf answer d v c = if_cases (λ (r : Disk × CronReply). IsDisk r.0) saves _ _ c v

parse_checked-none :
    (req : CreateRequest) (o : Option Schedule)
    → parse_checked req o ≡ none
    → (o ≢ none)
      × ((conflict_rule req.on_conflict ≡ "skip") ⊎ (conflict_rule req.on_conflict ≡ "queue"))
unfolding parse_checked
parse_checked-none req none h = cc
parse_checked-none req (some s) h = (
  λ e. cc,
  ground (
    arith,
    =s_iff (conflict_rule req.on_conflict) "skip",
    =s_iff (conflict_rule req.on_conflict) "queue",
  ),
)

-- The checks of a request that they let through.
record Passed (req : CreateRequest) : Type 0 where
  full : (length req.message == 0) ≡ false
  short : ltb 1000 (byte_length req.message) ≡ false
  parsed : parse_checked req (parse req.schedule) ≡ none

create_check-Passed : (req : CreateRequest) → create_check req ≡ none → Passed req
unfolding create_check
create_check-Passed req h = record {
  full = ground arith;
  short = ground arith;
  parsed = ground arith;
}

-- What passes the checks is a task.
new_entry-IsTask :
    (now : String) (req : CreateRequest) (id : List ℕ)
    → create_check req ≡ none
    → IsTask (new_entry now req id)
unfolding new_entry
new_entry-IsTask now req id h =
    let p = create_check-Passed req h in
    let q = parse_checked-none req (parse req.schedule) p.parsed in
    record {
      schedule = q.0;
      message = λ e. ground (arith, p.full, ap length e);
      short = ground (arith, p.short);
      conflict = q.1;
    }

pub new_entry-id :
    (now : String) (req : CreateRequest) (id : List ℕ) → (new_entry now req id).id ≡ id
unfolding new_entry
new_entry-id now req id = refl

create_in-IsDisk :
    (saves : Bool) (now : String) (req : CreateRequest) (d : Disk) (o : Option CronFile)
    → create_check req ≡ none
    → IsDisk d
    → IsLoaded o
    → IsDisk (create_in saves now req d o).0
unfolding create_in
create_in-IsDisk saves now req d none h v c = v
create_in-IsDisk saves now req d (some cf) h v c =
    let e = new_entry now req (cron_id cf.next_id) in
    if_elim (λ (r : Disk × CronReply). IsDisk r.0) (leb max_cron_entries (length cf.entries)) _ _
      (λ t. v)
      (λ t. save-IsDisk saves _ _ d v (record {
        few = ground (arith, length-append cf.entries (e ∷ []));
        tasks =
            All-append IsTask cf.entries (e ∷ []) c.tasks
              (new_entry-IsTask now req (cron_id cf.next_id) h, tt);
        given =
            All-append (IsGiven (cf.next_id + 1)) cf.entries (e ∷ [])
              (IsGiven-suc cf.next_id cf.entries c.given)
              ((cf.next_id, omega arith, new_entry-id now req (cron_id cf.next_id)), tt);
        unique = IsUnique-append cf.entries e c.unique (
            ap (λ i. has_id i cf.entries) (new_entry-id now req (cron_id cf.next_id))
            ∙ has_id-fresh cf.next_id cf.entries c.given);
      }))

create_checked-IsDisk :
    (saves : Bool) (now : String) (req : CreateRequest) (d : Disk) (o : Option CronError)
    → create_check req ≡ o
    → IsDisk d
    → IsDisk (create_checked saves now req d o).0
unfolding create_checked
create_checked-IsDisk saves now req d (some e) h v = v
create_checked-IsDisk saves now req d none h v =
    create_in-IsDisk saves now req d (load d) h v (load-IsLoaded d v)

module _ (P : CronEntry → Type 0) where
  All-remaining : (id : List ℕ) (es : List CronEntry) → All P es → All P (remaining id es)
  unfolding remaining
  All-remaining id [] a = tt
  All-remaining id (e ∷ es) a =
      if_cases (All P) (same_text e.id id) _ _ (All-remaining id es a.1)
        (a.0, All-remaining id es a.1)

  All-switched :
      (id : List ℕ) (on : Bool) (es : List CronEntry)
      → ((e : CronEntry) → P e → P (record e { enabled = on }))
      → All P es
      → All P (switched id on es)
  unfolding switched
  All-switched id on [] f a = tt
  All-switched id on (e ∷ es) f a =
      if_cases (All P) (same_text e.id id) _ _ (f e a.0, a.1) (a.0, All-switched id on es f a.1)

delete_in-IsDisk :
    (saves : Bool) (id : List ℕ) (d : Disk) (o : Option CronFile)
    → IsDisk d
    → IsLoaded o
    → IsDisk (delete_in saves id d o).0
unfolding delete_in
delete_in-IsDisk saves id d none v c = v
delete_in-IsDisk saves id d (some cf) v c =
    if_cases (λ (r : Disk × CronReply). IsDisk r.0) (has_id id cf.entries) _ _
      (save-IsDisk saves _ _ d v (record {
        few = omega (arith, length-remaining id cf.entries, c.few);
        tasks = All-remaining IsTask id cf.entries c.tasks;
        given = All-remaining (IsGiven cf.next_id) id cf.entries c.given;
        unique = IsUnique-remaining id cf.entries c.unique;
      }))
      v

set_enabled_in-IsDisk :
    (saves : Bool) (id : List ℕ) (on : Bool) (d : Disk) (o : Option CronFile)
    → IsDisk d
    → IsLoaded o
    → IsDisk (set_enabled_in saves id on d o).0
unfolding set_enabled_in
set_enabled_in-IsDisk saves id on d none v c = v
set_enabled_in-IsDisk saves id on d (some cf) v c =
    if_cases (λ (r : Disk × CronReply). IsDisk r.0) (has_id id cf.entries) _ _
      (save-IsDisk saves _ _ d v (record {
        few = omega (arith, length-switched id on cf.entries, c.few);
        tasks =
            All-switched IsTask id on cf.entries
              (λ e t. record {
                schedule = t.schedule;
                message = t.message;
                short = t.short;
                conflict = t.conflict;
              })
              c.tasks;
        given = All-switched (IsGiven cf.next_id) id on cf.entries (λ e g. g) c.given;
        unique = IsUnique-switched id on cf.entries c.unique;
      }))
      v

run_op-IsDisk : (o : CronOp) (d : Disk) → IsDisk d → IsDisk (run_op o d)
unfolding run_op create delete set_enabled
run_op-IsDisk (creates saves now req) d v =
    create_checked-IsDisk saves now req d (create_check req) refl v
run_op-IsDisk (deletes saves id) d v = delete_in-IsDisk saves id d (load d) v (load-IsLoaded d v)
run_op-IsDisk (switches saves id on) d v =
    set_enabled_in-IsDisk saves id on d (load d) v (load-IsLoaded d v)

-- Any calls of create, delete and enable, those that fail included, leave a sound task file sound (an
-- absent or unreadable file counts as sound): at most 20 entries, each with a schedule that parses, a
-- message of 1 to 1000 bytes and a known conflict rule, their ids distinct and all given before the
-- next one.
pub run_ops-IsDisk : (os : List CronOp) (d : Disk) → IsDisk d → IsDisk (run_ops os d)
unfolding run_ops
run_ops-IsDisk [] d v = v
run_ops-IsDisk (o ∷ os) d v = run_ops-IsDisk os (run_op o d) (run_op-IsDisk o d v)
