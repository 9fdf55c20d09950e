-- ===== src/Cron/Expansion.antt =====
-- The loop of `parseItem` (internal/cron/cron.go): its end, and the values it yields.
use aegisvm.Base.{
  ℕ, zero, suc, ◌+◌, ◌-◌, ◌≤◌, ◌<◌, ◌≡◌, ◌≢◌, List, Option, none, some, ℤ, pos, negsuc, ◌+ℤ◌, leb_ℤ,
  false, leb, arith, Bool-cases, inl, inr,
}
use aegisvm.Cron.{wrap_int, expand, and_value}

-- A step that cannot make the loop variable wrap around.
abbrev pub small : ℕ
small = 4611686018427387904

pub wrap_small : (i s : ℕ) → i + s ≤ 9223372036854775807 → wrap_int (pos i +ℤ pos s) ≡ pos (i + s)
unfolding wrap_int
wrap_small i s h = ground arith

and_value-ne : (v : ℤ) (o : Option (List ℤ)) → o ≢ none → and_value v o ≢ none
and_value-ne v none h = λ e. h e
and_value-ne v (some vs) h = λ e. cc

expand_step :
    (f : ℕ) (i e s : ℤ) → expand f (wrap_int (i +ℤ s)) e s ≢ none → expand (suc f) i e s ≢ none
unfolding expand
expand_step f i e s h = elim (Bool-cases (leb_ℤ i e)) [
  | inl t ↦ rw t (and_value-ne i _ h)
  | inr t ↦ rw t (λ e. cc)
]

expand_some : (f : ℕ) (i e s : ℤ) → leb_ℤ i e ≡ false → expand (suc f) i e s ≢ none
unfolding expand
expand_some f i e s h = rw h (λ e. cc)

-- Without a wrap the variable rises to the end.
pub expand_rising :
    (f i e s : ℕ)
    → 0 < s
    → s ≤ small
    → e ≤ 1000
    → e < i + f
    → expand (suc f) (pos i) (pos e) (pos s) ≢ none
expand_rising zero i e s p q r h = expand_some 0 (pos i) (pos e) (pos s) (ground arith)
expand_rising (suc f) i e s p q r h = elim (Bool-cases (leb i e)) [
  | inl t ↦
      expand_step (suc f) (pos i) (pos e) (pos s)
        (rw (wrap_small i s (ground arith)) (expand_rising f (i + s) e s p q r (omega arith)))
  | inr t ↦ expand_some (suc f) (pos i) (pos e) (pos s) (ground arith)
]

-- The sum of an index and a large step, and of that sum and the step again, with the wraps.
wrap_large :
    (i s : ℕ)
    → 9223372036854775807 < i + s
    → i ≤ 1000
    → s ≤ 9223372036854775807
    → wrap_int (pos i +ℤ pos s) ≡ negsuc (18446744073709551615 - (i + s))
unfolding wrap_int
wrap_large i s h p q = ground arith

wrap_again :
    (i s : ℕ)
    → 9223372036854775807 < i + s
    → i ≤ 1000
    → s ≤ 9223372036854775807
    → 18446744073709551616 ≤ i + s + s
    → wrap_int (negsuc (18446744073709551615 - (i + s)) +ℤ pos s)
      ≡ pos (i + s + s - 18446744073709551616)
unfolding wrap_int
wrap_again i s h p q r = ground arith

wrap_below :
    (i s : ℕ)
    → 9223372036854775807 < i + s
    → i ≤ 1000
    → s ≤ 9223372036854775807
    → i + s + s < 18446744073709551616
    → wrap_int (negsuc (18446744073709551615 - (i + s)) +ℤ pos s)
      ≡ negsuc (18446744073709551615 - (i + s + s))
unfolding wrap_int
wrap_below i s h p q r = ground arith

wrap_up :
    (i s : ℕ)
    → 9223372036854775807 < i + s
    → i ≤ 1000
    → s ≤ 9223372036854775807
    → i + s + s < 18446744073709551616
    → wrap_int (negsuc (18446744073709551615 - (i + s + s)) +ℤ pos s)
      ≡ pos (i + s + s + s - 18446744073709551616)
unfolding wrap_int
wrap_up i s h p q r = ground arith

-- Where the step is large, four rounds end the loop, unless the first two have made the variable fall.
expand_round :
    (f i e s : ℕ)
    → small < s
    → s ≤ 9223372036854775807
    → e ≤ 1000
    → i ≤ f
    → (18446744073709551616 ≤ i + s + s
        → expand (suc (suc f)) (pos (i + s + s - 18446744073709551616)) (pos e) (pos s) ≢ none)
    → expand (suc (suc (suc (suc f)))) (pos i) (pos e) (pos s) ≢ none
expand_round f i e s p q r h k = elim (Bool-cases (leb i e)) [
  | inr t ↦ expand_some _ (pos i) (pos e) (pos s) (ground arith)
  | inl t ↦
      expand_step _ (pos i) (pos e) (pos s) (elim (Bool-cases (leb (i + s) 9223372036854775807)) [
        | inl u ↦ rw (wrap_small i s (ground arith)) (expand_some _ _ _ (pos s) (ground arith))
        | inr u ↦
            let big : 9223372036854775807 < i + s = ground arith in
            let low : i ≤ 1000 = ground arith in
            rw (wrap_large i s big low q) (
              expand_step _ _ (pos e) (pos s)
                (elim (Bool-cases (leb 18446744073709551616 (i + s + s))) [
                  | inl v ↦ rw (wrap_again i s big low q (ground arith)) (k (ground arith))
                  | inr v ↦ rw (wrap_below i s big low q (ground arith)) (
                      expand_step _ _ (pos e) (pos s) (
                        rw (wrap_up i s big low q (ground arith))
                          (expand_some _ _ (pos e) (pos s) (ground arith))))
                ]))
      ])
]

pub expand_wrapping :
    (f i e s : ℕ)
    → small < s
    → s ≤ 9223372036854775807
    → e ≤ 1000
    → i ≤ f
    → expand (suc (suc (suc (suc f)))) (pos i) (pos e) (pos s) ≢ none
expand_wrapping zero i e s p q r h = expand_round zero i e s p q r h (λ k. absurd (omega arith))
expand_wrapping (suc zero) i e s p q r h =
    expand_round (suc zero) i e s p q r h (λ k. absurd (omega arith))
expand_wrapping (suc (suc f)) i e s p q r h =
    expand_round (suc (suc f)) i e s p q r h
      (λ k. expand_wrapping f (i + s + s - 18446744073709551616) e s p q r (omega arith))
