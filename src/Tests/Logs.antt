-- ===== src/Tests/Logs.antt =====
-- An instance's log at concrete inputs.
use aegisvm.Base.{◌≡◌, ◌≤◌, ◌⊎◌, [], ◌∷◌, some, true, length}
use aegisvm.Logstore.{
  LogEntry, FileIo, InstanceLog, new_instance_log, zero_entry, append, contents, max_lines,
  max_bytes,
}
use aegisvm.Logstore.Eviction.{IsValid}
use aegisvm.Logstore.Refine.{remember, new_instance_log-IsValid, append-contents}

abbrev line : LogEntry
line = record zero_entry { stream = "stdout"; line = "ready" }

abbrev io : FileIo
io = record { wrote = some 60; renamed = true; reopened = true }

abbrev new_log : InstanceLog
new_log = new_instance_log "i" (some 0) []

append-contents_example :
    let il' = append io line new_log in
    IsValid il'
    × (contents il' ≡ remember line (contents new_log))
    × (length (contents il') ≤ max_lines)
    × ((il'.total_bytes ≤ max_bytes) ⊎ (contents il' ≡ line ∷ []))
append-contents_example = append-contents io line new_log (new_instance_log-IsValid "i" (some 0) [])
