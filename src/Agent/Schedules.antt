-- ===== src/Agent/Schedules.antt =====
-- cmd/aegis-agent/cron.go: the file of scheduled tasks. A text is its list of code points, but for an
-- expression. `json.Marshal` and its inverse are a library's, so the file holds the record itself.
pub mod Ids
pub mod Tasks
pub mod Undo
use aegisvm.Base.{
  ℕ, ◌+◌, List, [], ◌∷◌, ◌++◌, Option, none, some, String, Bool, true, false, ltb, leb, ◌==◌, ◌=s◌,
  if◌then◌else◌, codes, length, byte_length, decimal, same_text,
}
use aegisvm.Cron.{Schedule, parse}

abbrev pub max_cron_entries : ℕ
max_cron_entries = 20

pub record CronEntry : Type 0 where
  pub id : List ℕ
  pub schedule : String
  pub message : List ℕ
  pub session : List ℕ
  pub on_conflict : String
  pub enabled : Bool
  pub created_at : String

pub record CronFile : Type 0 where
  pub entries : List CronEntry
  pub next_id : ℕ

-- What is at the path of the store.
pub data Disk : Type 0 where
  file : CronFile → Disk
  absent unreadable : Disk

pub data CronError : Type 0 where
  schedule_required message_required message_too_long invalid_schedule bad_conflict load_failed full
        save_failed not_found :
      CronError

pub data CronReply : Type 0 where
  created : List ℕ → CronReply
  changed : CronReply
  refused : CronError → CronReply

-- `Load`
unfoldable pub load : Disk → Option CronFile
load (file cf) = some cf
load absent = some (record { entries = []; next_id = 0 })
load unreadable = none

-- `Save`: a temporary file is renamed, so that a failure leaves the old one.
unfoldable pub save : Bool → CronFile → CronReply → Disk → Disk × CronReply
save saves cf answer d = if saves then (file cf, answer) else (d, refused save_failed)

-- `cron-%d`
unfoldable pub cron_id : ℕ → List ℕ
cron_id n = codes "cron-" ++ decimal n

or_else : List ℕ → List ℕ → List ℕ
or_else [] d = d
or_else (c ∷ cs) d = c ∷ cs

pub record CreateRequest : Type 0 where
  pub schedule : String
  pub message : List ℕ
  pub session : List ℕ
  pub on_conflict : String

-- The checks of `Create` before the lock, with the conflict rule that it takes.
conflict_rule : String → String
conflict_rule c = if c =s "" then "skip" else c

parse_checked : CreateRequest → Option Schedule → Option CronError
unfolding conflict_rule
parse_checked req none = some invalid_schedule
parse_checked req (some s) =
    let c = conflict_rule req.on_conflict in
    if c =s "skip" then none else if c =s "queue" then none else some bad_conflict

unfoldable pub create_check : CreateRequest → Option CronError
unfolding parse_checked
create_check req =
    if req.schedule =s ""
    then some schedule_required
    else if length req.message == 0
    then some message_required
    else if ltb 1000 (byte_length req.message)
    then some message_too_long
    else parse_checked req (parse req.schedule)

unfoldable pub new_entry : String → CreateRequest → List ℕ → CronEntry
unfolding or_else conflict_rule
new_entry now req id = record {
  id = id;
  schedule = req.schedule;
  message = req.message;
  session = or_else req.session id;
  on_conflict = conflict_rule req.on_conflict;
  enabled = true;
  created_at = now;
}

create_in : Bool → String → CreateRequest → Disk → Option CronFile → Disk × CronReply
unfolding new_entry
create_in saves now req d none = (d, refused load_failed)
create_in saves now req d (some cf) =
    if leb max_cron_entries (length cf.entries)
    then (d, refused full)
    else save saves
        (record {
          entries = cf.entries ++ (new_entry now req (cron_id cf.next_id) ∷ []);
          next_id = cf.next_id + 1;
        })
        (created (cron_id cf.next_id)) d

create_checked : Bool → String → CreateRequest → Disk → Option CronError → Disk × CronReply
unfolding create_in
create_checked saves now req d (some e) = (d, refused e)
create_checked saves now req d none = create_in saves now req d (load d)

-- `Create`; the arguments are whether the file can be written, and the time.
unfoldable pub create : Bool → String → CreateRequest → Disk → Disk × CronReply
unfolding create_checked
create saves now req d = create_checked saves now req d (create_check req)

unfoldable pub has_id : List ℕ → List CronEntry → Bool
has_id id [] = false
has_id id (e ∷ es) = if same_text e.id id then true else has_id id es

unfoldable pub remaining : List ℕ → List CronEntry → List CronEntry
remaining id [] = []
remaining id (e ∷ es) = let rest = remaining id es in if same_text e.id id then rest else e ∷ rest

delete_in : Bool → List ℕ → Disk → Option CronFile → Disk × CronReply
delete_in saves id d none = (d, refused load_failed)
delete_in saves id d (some cf) =
    if has_id id cf.entries
    then save saves (record cf { entries = remaining id cf.entries }) changed d
    else (d, refused not_found)

-- `Delete`
unfoldable pub delete : Bool → List ℕ → Disk → Disk × CronReply
unfolding delete_in
delete saves id d = delete_in saves id d (load d)

-- The first entry of the id is switched.
unfoldable pub switched : List ℕ → Bool → List CronEntry → List CronEntry
switched id on [] = []
switched id on (e ∷ es) =
    let rest = switched id on es in
    if same_text e.id id then record e { enabled = on } ∷ es else e ∷ rest

set_enabled_in : Bool → List ℕ → Bool → Disk → Option CronFile → Disk × CronReply
set_enabled_in saves id on d none = (d, refused load_failed)
set_enabled_in saves id on d (some cf) =
    if has_id id cf.entries
    then save saves (record cf { entries = switched id on cf.entries }) changed d
    else (d, refused not_found)

-- `SetEnabled`
unfoldable pub set_enabled : Bool → List ℕ → Bool → Disk → Disk × CronReply
unfolding set_enabled_in
set_enabled saves id on d = set_enabled_in saves id on d (load d)

-- One call of the tools, with whether the file can be written.
pub data CronOp : Type 0 where
  creates : Bool → String → CreateRequest → CronOp
  deletes : Bool → List ℕ → CronOp
  switches : Bool → List ℕ → Bool → CronOp

unfoldable pub run_op : CronOp → Disk → Disk
run_op (creates saves now req) d = (create saves now req d).0
run_op (deletes saves id) d = (delete saves id d).0
run_op (switches saves id on) d = (set_enabled saves id on d).0

unfoldable pub run_ops : List CronOp → Disk → Disk
unfolding run_op
run_ops [] d = d
run_ops (o ∷ os) d = run_ops os (run_op o d)
