-- ===== src/Files/Paths/Below.antt =====
-- Which paths of Files/Paths lie at or below another.
use aegisvm.Base.{
  ℕ, ◌≡◌, ◌≢◌, ◌⊎◌, inl, inr, refl, sym, ap, ap₂, ◌∙◌, List, [], ◌∷◌, ◌++◌, Bool, true, false, ◌||◌,
  if_elim, split, same_text, same_text_eq, same_text_refl, same_text_ne, All, length, drop, arith,
}
use aegisvm.Files.Paths.{
  FilePath, dot, dot_dot, has_prefix, step_up, push, clean_from, starts_rooted, clean, onto, join,
  join_name, relative_text, text_of, directory, tail_of,
}

-- Texts that begin alike.
has_prefix-append : (p t u : List ℕ) → has_prefix p t ≡ true → has_prefix p (t ++ u) ≡ true
unfolding has_prefix
has_prefix-append [] t u h = refl
has_prefix-append (a ∷ p) [] u h = cc
has_prefix-append (a ∷ p) (b ∷ t) u h = ground (arith, has_prefix-append p t u)

pub drop-has_prefix : (p t : List ℕ) → has_prefix p t ≡ true → t ≡ p ++ drop (length p) t
unfolding has_prefix
drop-has_prefix [] t h = refl
drop-has_prefix (a ∷ p) [] h = cc
drop-has_prefix (a ∷ p) (b ∷ t) h =
    let head : b ≡ a = ground arith in
    let tail : has_prefix p t ≡ true = ground arith in
    ap (λ c. c ∷ t) head ∙ ap (λ u. a ∷ u) (drop-has_prefix p t tail)

-- Elements that do not go up.
abbrev pub AllPlain : List (List ℕ) → Type 0
AllPlain = All (λ p. p ≢ dot_dot)

-- Where a clean path goes up, it goes up all the way from its start, which is not the root.
abbrev Shape : Bool → List (List ℕ) → Type 0
Shape rooted [] = Unit
Shape rooted (p ∷ up) =
    (p ≡ dot_dot → (rooted ≡ false) × All (λ q. q ≡ dot_dot) up) × Shape rooted up

step_up-Shape :
    (rooted : Bool) (up : List (List ℕ)) → Shape rooted up → Shape rooted (step_up rooted up)
unfolding step_up
step_up-Shape true [] h = tt
step_up-Shape false [] h = (λ e. (refl, tt), tt)
step_up-Shape rooted (p ∷ up) h =
    if_elim (Shape rooted) (same_text p dot_dot) _ _
      (λ t. let same = same_text_eq p dot_dot t in (λ e. ((h.0 same).0, (same, (h.0 same).1)), h))
      (λ t. h.1)

not_dots : (p : List ℕ) → same_text p dot_dot ≡ false → p ≢ dot_dot
not_dots p t e =
    let u : same_text p dot_dot ≡ true = ap (λ q. same_text q dot_dot) e ∙ same_text_refl dot_dot in
    cc

push-Shape :
    (rooted : Bool) (p : List ℕ) (up : List (List ℕ))
    → Shape rooted up
    → Shape rooted (push rooted p up)
unfolding push
push-Shape rooted p up h =
    if_elim (Shape rooted) (same_text p [] || same_text p dot) _ _ (λ t. h)
      (λ t.
        if_elim (Shape rooted) (same_text p dot_dot) _ _ (λ t2. step_up-Shape rooted up h)
          (λ t2. (λ e. absurd (not_dots p t2 e), h)))

clean_from-Shape :
    (rooted : Bool) (up ps : List (List ℕ))
    → Shape rooted up
    → Shape rooted (clean_from rooted up ps)
unfolding clean_from
clean_from-Shape rooted up [] h = h
clean_from-Shape rooted up (p ∷ ps) h =
    clean_from-Shape rooted (push rooted p up) ps (push-Shape rooted p up h)

dots-has_prefix :
    (p : List ℕ) (up : List (List ℕ))
    → All (λ q. q ≡ dot_dot) (p ∷ up)
    → has_prefix dot_dot (relative_text (p ∷ up)) ≡ true
unfolding relative_text has_prefix
dots-has_prefix p [] h = ap (has_prefix dot_dot) h.0
dots-has_prefix p (q ∷ up) h =
    has_prefix-append dot_dot (relative_text (q ∷ up)) (b'/' ∷ p) (dots-has_prefix q up h.1)

shorter :
    (p : List ℕ) (up : List (List ℕ))
    → has_prefix dot_dot (relative_text (p ∷ up)) ≡ false
    → has_prefix dot_dot (relative_text up) ≡ false
unfolding relative_text has_prefix
shorter p [] h = refl
shorter p (q ∷ up) h = ground (arith, has_prefix-append dot_dot (relative_text (q ∷ up)) (b'/' ∷ p))

Shape-AllPlain :
    (rooted : Bool) (up : List (List ℕ))
    → Shape rooted up
    → (rooted ≡ false → has_prefix dot_dot (relative_text up) ≡ false)
    → AllPlain up
Shape-AllPlain rooted [] h k = tt
Shape-AllPlain rooted (p ∷ up) h k = (
  λ e. let r = h.0 e in let all = dots-has_prefix p up (e, r.1) in let none_of = k r.0 in cc,
  Shape-AllPlain rooted up h.1 (λ f. shorter p up (k f)),
)

-- A clean path whose text does not begin with two dots does not go up.
pub clean-AllPlain :
    (t : List ℕ) → has_prefix dot_dot (text_of (clean t)) ≡ false → AllPlain (clean t).up
unfolding clean text_of
clean-AllPlain t h =
    let up = clean_from (starts_rooted t) [] (split b'/' t) in
    Shape-AllPlain (starts_rooted t) up (clean_from-Shape (starts_rooted t) [] (split b'/' t) tt)
      (λ f. sym (ap (λ b. has_prefix dot_dot (text_of (record { rooted = b; up = up }))) f) ∙ h)

abbrev Extends : List (List ℕ) → List (List ℕ) → Type 0
Extends base up = (ds : List (List ℕ)) × (up ≡ ds ++ base)

-- `p` is `dest` or lies below it.
abbrev pub Within : FilePath → FilePath → Type 0
Within dest p = (p.rooted ≡ dest.rooted) × ((ds : List (List ℕ)) × (p.up ≡ ds ++ dest.up))

push-Extends :
    (rooted : Bool) (base up : List (List ℕ)) (p : List ℕ)
    → p ≢ dot_dot
    → Extends base up
    → Extends base (push rooted p up)
unfolding push
push-Extends rooted base up p n (ds, h) = rw (same_text_ne p dot_dot n) (
    if_elim (Extends base) (same_text p [] || same_text p dot) _ _ (λ t. (ds, h))
      (λ t. (p ∷ ds, ap (λ u. p ∷ u) h)))

onto-Extends :
    (rooted : Bool) (base up : List (List ℕ)) → AllPlain up → Extends base (onto rooted base up)
unfolding onto
onto-Extends rooted base [] h = ([], refl)
onto-Extends rooted base (p ∷ up) h =
    push-Extends rooted base (onto rooted base up) p h.0 (onto-Extends rooted base up h.1)

pub join-Within : (dest p : FilePath) → AllPlain p.up → Within dest (join dest p)
unfolding join
join-Within dest p h = (refl, onto-Extends dest.rooted dest.up p.up h)

pub join_name-Within :
    (dest p : FilePath) (name : List ℕ)
    → name ≢ dot_dot
    → Within dest p
    → Within dest (join_name p name)
unfolding join_name
join_name-Within dest p name n (r, e) = (r, push-Extends p.rooted dest.up p.up name n e)

pub directory-AllPlain : (p : FilePath) → AllPlain p.up → AllPlain (directory p).up
unfolding directory
directory-AllPlain p h = tail_plain p.up h
  where
    tail_plain : (up : List (List ℕ)) → AllPlain up → AllPlain (tail_of up)
    tail_plain [] h = tt
    tail_plain (q ∷ up) h = h.1

-- The directory of a path below `dest` is below it too, or is that of `dest` itself.
pub directory-Within :
    (dest p : FilePath) → Within dest p → Within dest (directory p) ⊎ (directory p ≡ directory dest)
unfolding directory
directory-Within dest p (r, ([], e)) = inr (ap₂ (λ b u. record { rooted = b; up = tail_of u }) r e)
directory-Within dest p (r, (d ∷ ds, e)) = inl (r, (ds, ap tail_of e))
