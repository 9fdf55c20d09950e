-- ===== src/Gateway/Scheduler/Visits.antt =====
-- One round and one pass of `evaluateCron` (cmd/aegis-gateway/main.go) over the noted minutes.
use aegisvm.Base.{
  ℕ, ◌≡◌, refl, ap, List, [], ◌∷◌, ◌++◌, String, Bool, true, false, ◌&&◌, ◌=s◌, =s_iff,
  if◌then◌else◌, if_cases, All, same_text, same_text_refl, same_text_cong, same_text_join, arith,
}
use aegisvm.Cron.{matches}
use aegisvm.Gateway.Scheduler.{
  GwCronEntry, Minute, Firing, last_fired, has_state, touch, set_fired, visit, visit_all,
}

last_fired-snoc :
    (i id : List ℕ) (st : List (List ℕ × String))
    → last_fired i (st ++ ((id, "") ∷ [])) ≡ last_fired i st
unfolding last_fired
last_fired-snoc i id [] = if_cases (λ k. k ≡ "") (same_text id i) _ _ refl refl
last_fired-snoc i id ((j, k) ∷ st) =
    ap (λ r. if same_text j i then k else r) (last_fired-snoc i id st)

last_fired-touch :
    (i id : List ℕ) (st : List (List ℕ × String)) → last_fired i (touch id st) ≡ last_fired i st
unfolding touch
last_fired-touch i id st =
    if_cases (λ r. last_fired i r ≡ last_fired i st) (has_state id st) _ _ refl
      (last_fired-snoc i id st)

last_fired-set_fired :
    (i id : List ℕ) (k : String) (st : List (List ℕ × String))
    → last_fired i (set_fired id k st) ≡ (if same_text id i then k else last_fired i st)
unfolding last_fired set_fired
last_fired-set_fired i id k [] = refl
last_fired-set_fired i id k ((j, l) ∷ st) =
    ground (arith, last_fired-set_fired i id k st, same_text_cong j id i, same_text_join j id i)

module _ (m : Minute) where
  abbrev pub fires : GwCronEntry → Bool
  fires e = e.enabled && matches e.schedule m.moment

  abbrev pub firing : GwCronEntry → Firing
  firing e = record { id = e.id; session = e.session; message = e.message }

  pub visit-fired :
      (e : GwCronEntry) (st : List (List ℕ × String))
      → (last_fired e.id st =s m.key) ≡ false
      → (visit m e st).1 ≡ (if fires e then firing e ∷ [] else [])
  unfolding visit
  visit-fired e st h = ground (arith, last_fired-touch e.id e.id st)

  visit-quiet :
      (e : GwCronEntry) (st : List (List ℕ × String))
      → (fires e ≡ true → last_fired e.id st ≡ m.key)
      → (visit m e st).1 ≡ []
  unfolding visit
  visit-quiet e st h =
      ground (arith, last_fired-touch e.id e.id st, =s_iff (last_fired e.id (touch e.id st)) m.key)

  -- Another id keeps its minute.
  pub visit-other :
      (i : List ℕ) (e : GwCronEntry) (st : List (List ℕ × String))
      → same_text e.id i ≡ false
      → last_fired i (visit m e st).0 ≡ last_fired i st
  unfolding visit
  visit-other i e st h =
      ground (arith, last_fired-touch i e.id st, last_fired-set_fired i e.id m.key (touch e.id st))

  -- An id that fired at the minute stays so.
  visit-keeps :
      (i : List ℕ) (e : GwCronEntry) (st : List (List ℕ × String))
      → last_fired i st ≡ m.key
      → last_fired i (visit m e st).0 ≡ m.key
  unfolding visit
  visit-keeps i e st h =
      ground (arith, last_fired-touch i e.id st, last_fired-set_fired i e.id m.key (touch e.id st))

  visit-settles :
      (e : GwCronEntry) (st : List (List ℕ × String))
      → fires e ≡ true
      → last_fired e.id (visit m e st).0 ≡ m.key
  unfolding visit
  visit-settles e st h = ground (
    arith,
    last_fired-set_fired e.id e.id m.key (touch e.id st),
    same_text_refl e.id,
    =s_iff (last_fired e.id (touch e.id st)) m.key,
  )

  visit_all-keeps :
      (i : List ℕ) (es : List GwCronEntry) (st : List (List ℕ × String))
      → last_fired i st ≡ m.key
      → last_fired i (visit_all m es st).0 ≡ m.key
  unfolding visit_all
  visit_all-keeps i [] st h = h
  visit_all-keeps i (e ∷ es) st h = visit_all-keeps i es (visit m e st).0 (visit-keeps i e st h)

  abbrev pub Settled : List (List ℕ × String) → GwCronEntry → Type 0
  Settled st e = fires e ≡ true → last_fired e.id st ≡ m.key

  pub visit_all-Settled :
      (es : List GwCronEntry) (st : List (List ℕ × String)) → All (Settled (visit_all m es st).0) es
  unfolding visit_all
  visit_all-Settled [] st = tt
  visit_all-Settled (e ∷ es) st = (
    λ h. visit_all-keeps e.id es (visit m e st).0 (visit-settles e st h),
    visit_all-Settled es (visit m e st).0,
  )

  Settled-visit :
      (e : GwCronEntry) (es : List GwCronEntry) (st : List (List ℕ × String))
      → All (Settled st) es
      → All (Settled (visit m e st).0) es
  Settled-visit e [] st a = tt
  Settled-visit e (f ∷ es) st a = (λ h. visit-keeps f.id e st (a.0 h), Settled-visit e es st a.1)

  pub visit_all-quiet :
      (es : List GwCronEntry) (st : List (List ℕ × String))
      → All (Settled st) es
      → (visit_all m es st).1 ≡ []
  unfolding visit_all
  visit_all-quiet [] st a = refl
  visit_all-quiet (e ∷ es) st a =
      rw (visit-quiet e st a.0) (visit_all-quiet es (visit m e st).0 (Settled-visit e es st a.1))
