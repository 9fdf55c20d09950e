-- ===== src/Cron/Items.antt =====
-- What `parseItem` (internal/cron/cron.go) accepts, and the values of an item.
use aegisvm.Base.{
  ℕ, ◌≡◌, refl, List, Option, none, some, ℤ, pos, ◌≤ℤ◌, ◌<ℤ◌, if_cases, arith, atoi, atoi-le,
  max_int, cut,
}
use aegisvm.Cron.{
  FieldSpec, Progression, parse_bounds, split_step, stepped, checked_step, bounds, dashed, range,
  single, validated, with_step, is_star,
}

-- The step is positive and fits a word; both ends are in the field's range.
pub record Accepted (spec : FieldSpec) (p : Progression) : Type 0 where
  pub positive : pos 0 <ℤ p.step
  pub word : p.step ≤ℤ pos max_int
  pub start_from : pos spec.least ≤ℤ p.start
  pub start_to : p.start ≤ℤ pos spec.greatest
  pub end_from : pos spec.least ≤ℤ p.end
  pub end_to : p.end ≤ℤ pos spec.greatest

module _ (spec : FieldSpec) where
  -- The step of what an item says.
  HasStep : ℤ → Option Progression → Type 0
  HasStep s none = Unit
  HasStep s (some p) = p.step ≡ s

  range-HasStep : (a b : Option ℤ) (s : ℤ) → HasStep s (range a b s)
  unfolding range HasStep
  range-HasStep none b s = tt
  range-HasStep (some a) none s = tt
  range-HasStep (some a) (some b) s = ground arith

  single-HasStep : (a : Option ℤ) (s : ℤ) → HasStep s (single spec a s)
  unfolding single HasStep
  single-HasStep none s = tt
  single-HasStep (some a) s = refl

  dashed-HasStep :
      (item : List ℕ) (s : ℤ) (o : Option (List ℕ × List ℕ)) → HasStep s (dashed spec item s o)
  unfolding dashed
  dashed-HasStep item s none = single-HasStep (atoi item) s
  dashed-HasStep item s (some (a, b)) = range-HasStep (atoi a) (atoi b) s

  bounds-HasStep : (item : List ℕ) (s : ℤ) → HasStep s (bounds spec (item, s))
  unfolding bounds
  bounds-HasStep item s =
      if_cases (HasStep s) (is_star item) _ _ (unfold HasStep in refl)
        (dashed-HasStep item s (cut b'-' item))

  checked_step-pos :
      (item it : List ℕ) (o : Option ℤ) (s : ℤ)
      → checked_step item o ≡ some (it, s)
      → (pos 0 <ℤ s) × (o ≡ some s)
  unfolding checked_step
  checked_step-pos item it none s h = cc
  checked_step-pos item it (some z) s h = ground arith

  stepped-pos :
      (item it : List ℕ) (o : Option (List ℕ × List ℕ)) (s : ℤ)
      → stepped item o ≡ some (it, s)
      → (pos 0 <ℤ s) × (s ≤ℤ pos max_int)
  unfolding stepped
  stepped-pos item it none s h = ground arith
  stepped-pos item it (some (a, b)) s h =
      let (p, q) = checked_step-pos a it (atoi b) s h in (p, atoi-le b s q)

  validated-Accepted :
      (s : ℤ) (o : Option Progression) (p : Progression)
      → HasStep s o
      → pos 0 <ℤ s
      → s ≤ℤ pos max_int
      → validated spec o ≡ some p
      → Accepted spec p
  unfolding validated HasStep
  validated-Accepted s none p k a b h = cc
  validated-Accepted s (some q) p k a b h = ground arith

  with_step-Accepted :
      (o : Option (List ℕ × ℤ)) (p : Progression)
      → ((it : List ℕ) (s : ℤ) → o ≡ some (it, s) → (pos 0 <ℤ s) × (s ≤ℤ pos max_int))
      → with_step spec o ≡ some p
      → Accepted spec p
  unfolding with_step
  with_step-Accepted none p k h = cc
  with_step-Accepted (some (it, s)) p k h =
      let (a, b) = k it s refl in
      validated-Accepted s (bounds spec (it, s)) p (bounds-HasStep it s) a b h

  pub parse_bounds-Accepted :
      (item : List ℕ) (p : Progression) → parse_bounds spec item ≡ some p → Accepted spec p
  unfolding parse_bounds split_step
  parse_bounds-Accepted item p h =
      with_step-Accepted (split_step item) p (λ it s. stepped-pos item it (cut b'/' item) s) h
