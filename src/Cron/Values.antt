-- ===== src/Cron/Values.antt =====
-- The values that `parseItem` (internal/cron/cron.go) yields for an item that it accepts.
use aegisvm.Base.{
  ℕ, zero, suc, ◌+◌, ◌-◌, ◌%◌, ◌≤◌, ◌<◌, ◌≡◌, ◌≢◌, refl, ap, ◌∙◌, List, [], ◌∷◌, Option, none, some,
  ℤ, pos, negsuc, ◌≤ℤ◌, pos_part, Bool, true, false, ◌&&◌, leb, ◌==◌, if◌then◌else◌, All, arith,
  Bool-cases, inl, inr,
}
use native.Mathlib.Nat.{mod-eq-sub-mod, mod-eq_of_lt}
use aegisvm.Cron.{
  FieldSpec, Progression, expand, contains, and_value, expanded, parse_bounds, parse_item,
}
use aegisvm.Cron.Expansion.{small, wrap_small, expand_rising, expand_wrapping}
use aegisvm.Cron.Items.{Accepted, parse_bounds-Accepted}

expand-total :
    (g a b s : ℕ)
    → b ≤ g
    → a ≤ g
    → g ≤ 1000
    → 0 < s
    → s ≤ 9223372036854775807
    → expand (g + 4) (pos a) (pos b) (pos s) ≢ none
expand-total g a b s h k m p q =
    let e : g + 4 ≡ suc (suc (suc (suc g))) = omega arith in
    rw e (elim (Bool-cases (leb s small)) [
      | inl t ↦ expand_rising (suc (suc (suc g))) a b s p (ground arith) (omega arith) (omega arith)
      | inr t ↦ expand_wrapping g a b s (ground arith) q (omega arith) k
    ])

-- The numbers of an accepted item.
of_pos : (z : ℤ) → pos 0 ≤ℤ z → z ≡ pos (pos_part z)
of_pos (pos n) h = refl
of_pos (negsuc n) h = absurd (omega arith)

found : (o : Option (List ℤ)) → o ≢ none → (vs : List ℤ) × (o ≡ some vs)
found none h = absurd (h refl)
found (some vs) h = (vs, refl)

-- The loop of `parseItem` ends, by its test, in fewer rounds than the field's greatest value and four
-- more, whatever the step and however it wraps around: an item whose range and step are accepted has
-- values.
pub parse_item-total :
    (spec : FieldSpec) (item : List ℕ) (p : Progression)
    → spec.greatest ≤ 1000
    → parse_bounds spec item ≡ some p
    → (vs : List ℤ) × (parse_item spec item ≡ some vs)
unfolding parse_item
parse_item-total spec item p g h =
    let v = parse_bounds-Accepted spec item p h in
    let a : p.start ≡ pos (pos_part p.start) = of_pos p.start (omega (arith, v.start_from)) in
    let b : p.end ≡ pos (pos_part p.end) = of_pos p.end (omega (arith, v.end_from)) in
    let s : p.step ≡ pos (pos_part p.step) = of_pos p.step (omega (arith, v.positive)) in
    found _ (
      rw (h, a, b, s)
        (expand-total spec.greatest (pos_part p.start) (pos_part p.end) (pos_part p.step)
          (ground arith) (ground arith) g (ground arith) (ground arith)))

-- The values of a progression.
abbrev pub in_progression : ℕ → ℕ → ℕ → ℕ → Bool
in_progression i e s v = leb i v && leb v e && (v - i) % s == 0

progression_next :
    (i e s v : ℕ)
    → 0 < s
    → i ≤ e
    → in_progression i e s v ≡ (if v == i then true else in_progression (i + s) e s v)
progression_next i e s v p h = elim (Bool-cases (leb (i + s) v)) [
  | inl t ↦
      let far : i + s ≤ v = ground arith in
      let less : v - i - s ≡ v - (i + s) = omega arith in
      let same : (v - i) % s ≡ (v - (i + s)) % s =
        mod-eq-sub-mod (omega arith) ∙ ap (λ n. n % s) less in
      ground (arith, same)
  | inr t ↦ elim (Bool-cases (leb i v)) [
    | inl u ↦ let same : (v - i) % s ≡ v - i = mod-eq_of_lt (ground arith) in ground (arith, same)
    | inr u ↦ ground arith
  ]
]

module _ (e s : ℕ) (p : 0 < s) (q : s ≤ small) (r : e ≤ 1000) where
  past_end : (i v : ℕ) → leb i e ≡ false → in_progression i e s v ≡ false
  past_end i v t = ground arith

  -- What holds of the values of a progression from `i`: they are its members, from `lo` to `e`.
  abbrev Spans : ℕ → ℕ → List ℤ → Type 0
  Spans lo i vs =
      ((v : ℕ) → contains vs (pos v) ≡ in_progression i e s v)
      × All (λ z. (pos lo ≤ℤ z) × (z ≤ℤ pos e)) vs

  expand_more :
      (lo i : ℕ) (o : Option (List ℤ)) (vs : List ℤ)
      → lo ≤ i
      → leb i e ≡ true
      → and_value (pos i) o ≡ some vs
      → ((ws : List ℤ) → o ≡ some ws → Spans lo (i + s) ws)
      → Spans lo i vs
  unfolding contains
  expand_more lo i none vs l t k ih = cc
  expand_more lo i (some ws) vs l t k ih =
      let same : vs ≡ pos i ∷ ws = cc in
      let (members, within) = ih ws refl in
      rw same (
        (λ v. ground (arith, members v, progression_next i e s v p (ground arith))),
        ((ground arith), within),
      )

  -- An accepted item without wrap-around has just the values of its progression.
  pub expand-Spans :
      (f lo i : ℕ) (vs : List ℤ)
      → lo ≤ i
      → expand f (pos i) (pos e) (pos s) ≡ some vs
      → Spans lo i vs
  unfolding expand
  expand-Spans zero lo i vs l h = cc
  expand-Spans (suc f) lo i vs l h = elim (Bool-cases (leb i e)) [
    | inl t ↦
        let next = wrap_small i s (ground arith) in
        expand_more lo i (expand f (pos (i + s)) (pos e) (pos s)) vs l t (ground (arith, next))
          (λ ws. expand-Spans f lo (i + s) ws (omega arith))
    | inr t ↦
        let same : vs ≡ [] = ground arith in rw same ((λ v. unfold contains in ground arith), tt)
  ]

-- The item as a test of one value, with no list: the reference for the expansion.
abbrev pub admits : Option Progression → ℕ → Bool
admits none v = false
admits (some p) v = in_progression (pos_part p.start) (pos_part p.end) (pos_part p.step) v

-- The step is too small to make the loop variable wrap around.
abbrev pub IsSmall : Option Progression → Type 0
IsSmall none = Unit
IsSmall (some p) = p.step ≤ℤ pos small

abbrev pub IsWithin : FieldSpec → List ℤ → Type 0
IsWithin spec vs = All (λ z. (pos spec.least ≤ℤ z) × (z ≤ℤ pos spec.greatest)) vs

widen :
    (lo e g : ℕ) (vs : List ℤ)
    → e ≤ g
    → All (λ z. (pos lo ≤ℤ z) × (z ≤ℤ pos e)) vs
    → All (λ z. (pos lo ≤ℤ z) × (z ≤ℤ pos g)) vs
widen lo e g [] h a = tt
widen lo e g (v ∷ vs) h a = ((omega (arith, a.0.0), omega (arith, a.0.1)), widen lo e g vs h a.1)

expanded-Spans :
    (spec : FieldSpec) (o : Option Progression) (vs : List ℤ)
    → ((p : Progression) → o ≡ some p → Accepted spec p)
    → spec.greatest ≤ 1000
    → IsSmall o
    → expanded spec o ≡ some vs
    → ((v : ℕ) → contains vs (pos v) ≡ admits o v) × IsWithin spec vs
expanded-Spans spec none vs k g small_step h = cc
expanded-Spans spec (some p) vs k g small_step h =
    let v = k p refl in
    let a : p.start ≡ pos (pos_part p.start) = of_pos p.start (omega (arith, v.start_from)) in
    let b : p.end ≡ pos (pos_part p.end) = of_pos p.end (omega (arith, v.end_from)) in
    let s : p.step ≡ pos (pos_part p.step) = of_pos p.step (omega (arith, v.positive)) in
    let run : expand (spec.greatest + 4) (pos (pos_part p.start)) (pos (pos_part p.end))
          (pos (pos_part p.step))
        ≡ some vs =
      rw (← a, ← b, ← s) h in
    let (members, within) =
      expand-Spans (pos_part p.end) (pos_part p.step) (ground arith) (ground arith) (ground arith)
        (spec.greatest + 4) spec.least (pos_part p.start) vs (ground arith) run in
    (members, widen spec.least (pos_part p.end) spec.greatest vs (ground arith) within)

pub parse_item-Spans :
    (spec : FieldSpec) (item : List ℕ) (vs : List ℤ)
    → spec.greatest ≤ 1000
    → IsSmall (parse_bounds spec item)
    → parse_item spec item ≡ some vs
    → ((v : ℕ) → contains vs (pos v) ≡ admits (parse_bounds spec item) v) × IsWithin spec vs
unfolding parse_item
parse_item-Spans spec item vs =
    expanded-Spans spec (parse_bounds spec item) vs (parse_bounds-Accepted spec item)
