-- ===== src/Agent/Schedules/Ids.antt =====
-- The ids of the scheduled tasks of cmd/aegis-agent/cron.go.
use aegisvm.Base.{
  ℕ, ◌+◌, ◌≤◌, ◌<◌, ◌≡◌, refl, ap, sym, ◌∙◌, ◌≢◌, List, [], ◌∷◌, ◌++◌, Bool, false, if_cases, All,
  length, codes, decimal, decimal_inj, same_text, same_text_refl, same_text_ne, arith,
}
use aegisvm.Agent.Schedules.{CronEntry, cron_id, has_id, remaining, switched}

-- The id is one that was given before the next.
abbrev pub IsGiven : ℕ → CronEntry → Type 0
IsGiven next e = (k : ℕ) × (k < next) × (e.id ≡ cron_id k)

abbrev pub IsUnique : List CronEntry → Type 0
IsUnique [] = Unit
IsUnique (e ∷ es) = (has_id e.id es ≡ false) × IsUnique es

append-inj : (xs ys zs : List ℕ) → xs ++ ys ≡ xs ++ zs → ys ≡ zs
append-inj [] ys zs h = h
append-inj (x ∷ xs) ys zs h = append-inj xs ys zs cc

cron_id_inj : (j k : ℕ) → cron_id j ≡ cron_id k → j ≡ k
unfolding cron_id
cron_id_inj j k h = decimal_inj j k (append-inj (codes "cron-") (decimal j) (decimal k) h)

pub has_id-fresh :
    (next : ℕ) (es : List CronEntry) → All (IsGiven next) es → has_id (cron_id next) es ≡ false
unfolding has_id
has_id-fresh next [] g = refl
has_id-fresh next (e ∷ es) ((k, lt, p), g) =
    let ne : e.id ≢ cron_id next = λ q. omega (arith, cron_id_inj k next (sym p ∙ q)) in
    rw (same_text_ne e.id (cron_id next) ne) (has_id-fresh next es g)

has_id-append :
    (id : List ℕ) (es : List CronEntry) (e : CronEntry)
    → has_id id es ≡ false
    → same_text e.id id ≡ false
    → has_id id (es ++ (e ∷ [])) ≡ false
unfolding has_id
has_id-append id [] e h k = rw k refl
has_id-append id (f ∷ es) e h k = ground (arith, has_id-append id es e)

pub IsUnique-append :
    (es : List CronEntry) (e : CronEntry)
    → IsUnique es
    → has_id e.id es ≡ false
    → IsUnique (es ++ (e ∷ []))
unfolding has_id
IsUnique-append [] e u h = (refl, tt)
IsUnique-append (f ∷ es) e u h =
    let apart : same_text f.id e.id ≡ false = ground arith in
    let ne : e.id ≢ f.id = λ q. ground (arith, same_text_refl e.id, ap (λ i. same_text i e.id) q) in
    (
      has_id-append f.id es e u.0 (same_text_ne e.id f.id ne),
      IsUnique-append es e u.1 (ground arith),
    )

pub IsGiven-suc :
    (next : ℕ) (es : List CronEntry) → All (IsGiven next) es → All (IsGiven (next + 1)) es
IsGiven-suc next [] g = tt
IsGiven-suc next (e ∷ es) ((k, lt, p), g) = ((k, omega arith, p), IsGiven-suc next es g)

has_id-remaining :
    (i id : List ℕ) (es : List CronEntry) → has_id i es ≡ false → has_id i (remaining id es) ≡ false
unfolding has_id remaining
has_id-remaining i id [] h = refl
has_id-remaining i id (e ∷ es) h = ground (arith, has_id-remaining i id es)

pub IsUnique-remaining :
    (id : List ℕ) (es : List CronEntry) → IsUnique es → IsUnique (remaining id es)
unfolding remaining
IsUnique-remaining id [] u = tt
IsUnique-remaining id (e ∷ es) u =
    if_cases IsUnique (same_text e.id id) _ _ (IsUnique-remaining id es u.1)
      (has_id-remaining e.id id es u.0, IsUnique-remaining id es u.1)

pub length-remaining : (id : List ℕ) (es : List CronEntry) → length (remaining id es) ≤ length es
unfolding remaining
length-remaining id [] = omega arith
length-remaining id (e ∷ es) = ground (arith, length-remaining id es)

pub length-switched :
    (id : List ℕ) (on : Bool) (es : List CronEntry) → length (switched id on es) ≡ length es
unfolding switched
length-switched id on [] = refl
length-switched id on (e ∷ es) = ground (arith, length-switched id on es)

has_id-switched :
    (i id : List ℕ) (on : Bool) (es : List CronEntry) → has_id i (switched id on es) ≡ has_id i es
unfolding has_id switched
has_id-switched i id on [] = refl
has_id-switched i id on (e ∷ es) = ground (arith, has_id-switched i id on es)

pub IsUnique-switched :
    (id : List ℕ) (on : Bool) (es : List CronEntry) → IsUnique es → IsUnique (switched id on es)
unfolding switched
IsUnique-switched id on [] u = tt
IsUnique-switched id on (e ∷ es) u =
    if_cases IsUnique (same_text e.id id) _ _ u
      (has_id-switched e.id id on es ∙ u.0, IsUnique-switched id on es u.1)
