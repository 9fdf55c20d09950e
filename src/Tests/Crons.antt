-- ===== src/Tests/Crons.antt =====
-- Expressions, task files and conversations at concrete inputs.
use aegisvm.Base.{
  ◌≡◌, refl, ◌=s◌, List, [], ◌∷◌, some, ℤ, pos, String, true, arith, codes, fields, split, cut,
  atoi, byte_length, decimal,
}
use aegisvm.Cron.{
  Schedule, Moment, Progression, minute_spec, parse_bounds, parse_item, parse, matches, parse_field,
  parse_items, split_step, expand, wrap_int, sort_ints, add_unseen, contains,
}
use aegisvm.Cron.Values.{parse_item-total}
use aegisvm.Cron.Meaning.{SmallParts, parts_admit, matches-parse}
use aegisvm.Agent.Schedules.{
  creates, switches, CreateRequest, CronEntry, CronFile, file, absent, run_ops, create, created,
  load, cron_id, create_check, save,
}
use aegisvm.Agent.Schedules.Tasks.{IsDisk, run_ops-IsDisk}
use aegisvm.Gateway.Scheduler.{
  Minute, Scheduler, check_cron_change, at_time, parsed, evaluate_cron, last_fired,
}
use aegisvm.Gateway.Scheduler.Due.{due, Unfired, evaluate_cron-run_ops}

abbrev quarter_hours : Progression
quarter_hours = record { start = pos 0; end = pos 59; step = pos 15 }

parse_bounds-quarter_hours : parse_bounds minute_spec (codes "*/15") ≡ some quarter_hours
unfolding parse_bounds split_step cut atoi
parse_bounds-quarter_hours = refl

parse_item-total_example : (vs : List ℤ) × (parse_item minute_spec (codes "*/15") ≡ some vs)
parse_item-total_example =
    parse_item-total minute_spec (codes "*/15") quarter_hours (omega arith)
      parse_bounds-quarter_hours

abbrev expression : String
expression = "*/30 9-11 1 1,7 *"

abbrev expression_schedule : Schedule
expression_schedule = record {
  minute = pos 0 ∷ pos 30 ∷ [];
  hour = pos 9 ∷ pos 10 ∷ pos 11 ∷ [];
  dom = pos 1 ∷ [];
  month = pos 1 ∷ pos 7 ∷ [];
  dow = pos 0 ∷ pos 1 ∷ pos 2 ∷ pos 3 ∷ pos 4 ∷ pos 5 ∷ pos 6 ∷ [];
}

abbrev summer : Moment
summer = record { minute = 30; hour = 10; day = 1; month = 7; weekday = 3 }

parse-expression : parse expression ≡ some expression_schedule
unfolding parse fields parse_field parse_items split parse_item parse_bounds split_step cut atoi
    expand wrap_int sort_ints add_unseen contains
parse-expression = refl

expression-SmallParts : SmallParts (fields (codes expression))
unfolding fields split parse_bounds split_step cut atoi
expression-SmallParts = ground arith

matches-parse_example :
    matches expression_schedule summer ≡ parts_admit (fields (codes expression)) summer
matches-parse_example =
    matches-parse expression expression_schedule summer expression-SmallParts parse-expression

abbrev backup_request : CreateRequest
backup_request = record {
  schedule = expression;
  message = codes "back up";
  session = [];
  on_conflict = "";
}

run_ops-IsDisk_example :
    IsDisk
      (run_ops (creates true "" backup_request ∷ switches true (codes "cron-0") true ∷ []) absent)
run_ops-IsDisk_example =
    run_ops-IsDisk (creates true "" backup_request ∷ switches true (codes "cron-0") true ∷ [])
      absent tt

abbrev backup : CronEntry
backup = record {
  id = codes "cron-0";
  schedule = expression;
  message = codes "back up";
  session = codes "cron-0";
  on_conflict = "skip";
  enabled = true;
  created_at = "";
}

abbrev backup_file : CronFile
backup_file = record { entries = backup ∷ []; next_id = 1 }

run_ops-backup : run_ops (creates true "" backup_request ∷ []) absent ≡ file backup_file
unfolding run_ops create load cron_id create_check ◌=s◌ byte_length parse fields parse_field
    parse_items split parse_item parse_bounds split_step cut atoi expand wrap_int sort_ints
    add_unseen contains save decimal
run_ops-backup = refl

create-backup : (create true "" backup_request absent).1 ≡ created (codes "cron-0")
unfolding create load cron_id create_check ◌=s◌ byte_length parse fields parse_field parse_items
    split parse_item parse_bounds split_step cut atoi expand wrap_int sort_ints add_unseen contains
    save decimal
create-backup = refl

abbrev minute : Minute
minute = record { key = "2026-07-01T10:30"; moment = summer }

abbrev new_scheduler : Scheduler
new_scheduler = record { entries = []; state = []; mtime = 0 }

backup-Unfired : Unfired minute [] backup_file.entries
unfolding last_fired ◌=s◌
backup-Unfired = (refl, tt)

evaluate_cron-run_ops_example :
    let first =
      evaluate_cron minute (check_cron_change (at_time 7 (parsed backup_file)) new_scheduler) in
    (first.1 ≡ due summer backup_file.entries) × ((evaluate_cron minute first.0).1 ≡ [])
evaluate_cron-run_ops_example =
    evaluate_cron-run_ops (creates true "" backup_request ∷ []) backup_file new_scheduler 7 minute
      run_ops-backup (λ e. omega arith) backup-Unfired
