-- ===== src/Gateway/Scheduler.antt =====
-- cmd/aegis-gateway/main.go: the gateway reads the agent's task file and fires what is due. The file's
-- time and the clock are arguments; what `fireCron` is called with is returned. A text is its list of
-- code points.
pub mod Visits
pub mod Due
use aegisvm.Base.{
  ℕ, ◌+◌, List, [], ◌∷◌, ◌++◌, Option, none, some, String, Bool, true, false, leb, ◌==◌, ◌=s◌,
  if◌then◌else◌, same_text,
}
use aegisvm.Cron.{Schedule, Moment, parse, matches}
use aegisvm.Agent.Schedules.{CronEntry, CronFile}

-- `gwCronEntry`
pub record GwCronEntry : Type 0 where
  pub id : List ℕ
  pub schedule : Schedule
  pub message : List ℕ
  pub session : List ℕ
  pub enabled : Bool

-- `cronEntries`, `cronState` (the minute last fired, by id) and `cronMtime` of `Gateway`.
pub record Scheduler : Type 0 where
  pub entries : List GwCronEntry
  pub state : List (List ℕ × String)
  pub mtime : ℕ

pub data Contents : Type 0 where
  unread unparsed : Contents
  parsed : CronFile → Contents

-- What is known of the file: no workspace, no file, or its time and what reading it gives.
pub data CronStat : Type 0 where
  no_workspace removed : CronStat
  at_time : ℕ → Contents → CronStat

loaded_entry : ℕ → CronEntry → Option Schedule → (ℕ → List GwCronEntry) → List GwCronEntry
loaded_entry n e none rest = rest n
loaded_entry n e (some s) rest =
    record {
      id = e.id;
      schedule = s;
      message = e.message;
      session = e.session;
      enabled = e.enabled;
    }
    ∷ rest (n + 1)

-- The loop over the file's entries, of which at most 20 are taken; the count is of those taken.
unfoldable pub load_entries : ℕ → List CronEntry → List GwCronEntry
unfolding loaded_entry
load_entries n [] = []
load_entries n (e ∷ es) =
    let more = loaded_entry n e (parse e.schedule) (λ k. load_entries k es) in
    if leb 20 n then [] else more

take_contents : Contents → Scheduler → Scheduler
take_contents unread g = g
take_contents unparsed g = g
take_contents (parsed cf) g = record g { entries = load_entries 0 cf.entries }

-- `checkCronChange`
unfoldable pub check_cron_change : CronStat → Scheduler → Scheduler
unfolding take_contents
check_cron_change no_workspace g = g
check_cron_change removed g = record g { entries = [] }
check_cron_change (at_time t c) g =
    if t == g.mtime then g else take_contents c (record g { mtime = t })

-- The minute, as `evaluateCron` writes it and as the schedules read it.
pub record Minute : Type 0 where
  pub key : String
  pub moment : Moment

-- What a scheduled message is sent with.
pub record Firing : Type 0 where
  pub id : List ℕ
  pub session : List ℕ
  pub message : List ℕ

-- The minute that an id last fired; none is the empty text.
unfoldable pub last_fired : List ℕ → List (List ℕ × String) → String
last_fired id [] = ""
last_fired id ((i, k) ∷ st) = if same_text i id then k else last_fired id st

has_state : List ℕ → List (List ℕ × String) → Bool
has_state id [] = false
has_state id ((i, k) ∷ st) = if same_text i id then true else has_state id st

-- An id that is met for the first time gets an empty state.
unfoldable pub touch : List ℕ → List (List ℕ × String) → List (List ℕ × String)
unfolding has_state
touch id st = if has_state id st then st else st ++ ((id, "") ∷ [])

unfoldable pub set_fired : List ℕ → String → List (List ℕ × String) → List (List ℕ × String)
set_fired id k [] = (id, k) ∷ []
set_fired id k ((i, j) ∷ st) =
    let rest = set_fired id k st in if same_text i id then (i, k) ∷ st else (i, j) ∷ rest

-- One round of the loop of `evaluateCron`.
unfoldable pub visit :
    Minute → GwCronEntry → List (List ℕ × String) → List (List ℕ × String) × List Firing
unfolding touch set_fired last_fired
visit m e st =
    if e.enabled
    then if last_fired e.id (touch e.id st) =s m.key
      then (touch e.id st, [])
      else if matches e.schedule m.moment
      then (
        set_fired e.id m.key (touch e.id st),
        record { id = e.id; session = e.session; message = e.message } ∷ [],
      )
      else (touch e.id st, [])
    else (st, [])

unfoldable pub visit_all :
    Minute → List GwCronEntry → List (List ℕ × String) → List (List ℕ × String) × List Firing
unfolding visit
visit_all m [] st = (st, [])
visit_all m (e ∷ es) st =
    let first = visit m e st in let rest = visit_all m es first.0 in (rest.0, first.1 ++ rest.1)

-- `evaluateCron`, with the calls of `fireCron` in order.
unfoldable pub evaluate_cron : Minute → Scheduler → Scheduler × List Firing
evaluate_cron m g =
    let (st, fired) = visit_all m g.entries g.state in (record g { state = st }, fired)
