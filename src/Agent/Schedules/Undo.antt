-- ===== src/Agent/Schedules/Undo.antt =====
-- `Create` and `Delete` of cmd/aegis-agent/cron.go undo each other.
use aegisvm.Base.{
  ℕ, ◌+◌, ◌≡◌, refl, ap, ◌∙◌, List, [], ◌∷◌, ◌++◌, Option, none, some, String, Bool, true, false,
  leb, if_elim, length, same_text, same_text_refl, arith,
}
use aegisvm.Agent.Schedules.{
  max_cron_entries, CronEntry, CronFile, CronError, Disk, file, CronReply, created, changed, load,
  save, cron_id, CreateRequest, create_check, new_entry, create_in, create_checked, create, has_id,
  remaining, delete_in, delete,
}
use aegisvm.Agent.Schedules.Ids.{has_id-fresh}
use aegisvm.Agent.Schedules.Tasks.{IsDisk, IsCronFile, IsLoaded, load-IsLoaded, new_entry-id}

remaining-fresh :
    (id : List ℕ) (es : List CronEntry) (e : CronEntry)
    → has_id id es ≡ false
    → e.id ≡ id
    → (remaining id (es ++ (e ∷ [])) ≡ es) × (has_id id (es ++ (e ∷ [])) ≡ true)
unfolding remaining has_id
remaining-fresh id [] e h p =
    let same : same_text e.id id ≡ true = ap (λ i. same_text i id) p ∙ same_text_refl id in
    (rw same refl, rw same refl)
remaining-fresh id (f ∷ es) e h p =
    let other : same_text f.id id ≡ false = ground arith in
    let rest = remaining-fresh id es e (ground arith) p in
    (rw other (ap (λ r. f ∷ r) rest.0), rw other rest.1)

-- What a `Create` that gives an id leaves.
abbrev Undone : Option CronFile → Disk × CronReply → Type 0
Undone o r =
    (id : List ℕ)
    → r.1 ≡ created id
    → ((before : CronFile) × (o ≡ some before)
        × (delete true id r.0 ≡ (file (record before { next_id = before.next_id + 1 }), changed)))

delete-save :
    (now : String) (req : CreateRequest) (cf : CronFile)
    → IsCronFile cf
    → delete true (cron_id cf.next_id) (
        file (record {
          entries = cf.entries ++ (new_entry now req (cron_id cf.next_id) ∷ []);
          next_id = cf.next_id + 1;
        }))
      ≡ (file (record cf { next_id = cf.next_id + 1 }), changed)
unfolding delete delete_in load save
delete-save now req cf v =
    let (gone, there) =
      remaining-fresh (cron_id cf.next_id) cf.entries (new_entry now req (cron_id cf.next_id))
        (has_id-fresh cf.next_id cf.entries v.given) (new_entry-id now req (cron_id cf.next_id)) in
    rw (there, gone) refl

create_in-Undone :
    (saves : Bool) (now : String) (req : CreateRequest) (d : Disk) (o : Option CronFile)
    → IsLoaded o
    → Undone o (create_in saves now req d o)
unfolding create_in save
create_in-Undone saves now req d none v = λ id e. cc
create_in-Undone saves now req d (some cf) v =
    if_elim (Undone (some cf)) (leb max_cron_entries (length cf.entries)) _ _ (λ t id e. cc)
      (λ t.
        if_elim (Undone (some cf)) saves _ _
          (λ s id e.
            let same : cron_id cf.next_id ≡ id = cc in
            (cf, refl, rw⁻¹ same (delete-save now req cf v)))
          (λ s id e. cc))

create_checked-Undone :
    (saves : Bool) (now : String) (req : CreateRequest) (d : Disk) (o : Option CronError)
    → IsDisk d
    → Undone (load d) (create_checked saves now req d o)
unfolding create_checked
create_checked-Undone saves now req d (some e) v = λ id h. cc
create_checked-Undone saves now req d none v =
    create_in-Undone saves now req d (load d) (load-IsLoaded d v)

-- On a sound task file, deleting the id that `Create` gave succeeds and leaves the entries as they were
-- before; only the next id is one further.
pub delete-create :
    (saves : Bool) (now : String) (req : CreateRequest) (d : Disk) (id : List ℕ)
    → IsDisk d
    → (create saves now req d).1 ≡ created id
    → ((before : CronFile) × (load d ≡ some before)
        × (delete true id (create saves now req d).0
            ≡ (file (record before { next_id = before.next_id + 1 }), changed)))
unfolding create
delete-create saves now req d id v h =
    create_checked-Undone saves now req d (create_check req) v id h
