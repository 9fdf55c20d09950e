-- ===== src/Cron/Sets.antt =====
-- The sets of values of internal/cron/cron.go: adding what was not seen, and sorting.
use aegisvm.Base.{
  ◌≡◌, refl, ◌∙◌, List, [], ◌∷◌, ◌++◌, ℤ, pos, negsuc, ◌<ℤ◌, leb_ℤ, eqb_ℤ, true, false,
  if◌then◌else◌, All, All-append, arith, Bool-cases, inl, inr,
}
use aegisvm.Cron.{contains, add_unseen, insert_int, sort_ints}

-- Strictly rising, so that no value stands twice.
abbrev pub IsStrict : List ℤ → Type 0
IsStrict [] = Unit
IsStrict (x ∷ xs) = All (λ y. x <ℤ y) xs × IsStrict xs

abbrev pub IsUnique : List ℤ → Type 0
IsUnique [] = Unit
IsUnique (x ∷ xs) = (contains xs x ≡ false) × IsUnique xs

contains-append :
    (xs ys : List ℤ) (v : ℤ)
    → contains (xs ++ ys) v ≡ (if contains xs v then true else contains ys v)
unfolding contains
contains-append [] ys v = refl
contains-append (x ∷ xs) ys v = ground (arith, contains-append xs ys v)

eqb_sym : (x y : ℤ) → eqb_ℤ x y ≡ eqb_ℤ y x
eqb_sym x y = ground arith

eqb_eq : (x y : ℤ) → eqb_ℤ x y ≡ true → x ≡ y
eqb_eq (pos m) (pos n) h = ground arith
eqb_eq (pos m) (negsuc n) h = ground arith
eqb_eq (negsuc m) (pos n) h = ground arith
eqb_eq (negsuc m) (negsuc n) h = ground arith

IsUnique-snoc :
    (xs : List ℤ) (v : ℤ) → IsUnique xs → contains xs v ≡ false → IsUnique (xs ++ (v ∷ []))
unfolding contains
IsUnique-snoc [] v u h = (refl, tt)
IsUnique-snoc (x ∷ xs) v u h = (
  ground (arith, contains-append xs (v ∷ []) x, eqb_sym x v, u.0),
  IsUnique-snoc xs v u.1 (ground arith),
)

pub add_unseen-IsUnique : (xs vs : List ℤ) → IsUnique xs → IsUnique (add_unseen xs vs)
unfolding add_unseen
add_unseen-IsUnique xs [] u = u
add_unseen-IsUnique xs (v ∷ vs) u = elim (Bool-cases (contains xs v)) [
  | inl t ↦ rw t (add_unseen-IsUnique xs vs u)
  | inr t ↦ rw t (add_unseen-IsUnique (xs ++ (v ∷ [])) vs (IsUnique-snoc xs v u t))
]

pub contains-add_unseen :
    (xs vs : List ℤ) (v : ℤ)
    → contains (add_unseen xs vs) v ≡ (if contains xs v then true else contains vs v)
unfolding add_unseen contains
contains-add_unseen xs [] v = ground arith
contains-add_unseen xs (w ∷ vs) v = elim (Bool-cases (contains xs w)) [
  | inl t ↦ rw t (ground (arith, contains-add_unseen xs vs v, eqb_eq w v))
  | inr t ↦
      rw t
        (ground (arith, contains-add_unseen (xs ++ (w ∷ [])) vs v, contains-append xs (w ∷ []) v))
]

pub All-add_unseen :
    (P : ℤ → Type 0) (xs vs : List ℤ) → All P xs → All P vs → All P (add_unseen xs vs)
unfolding add_unseen
All-add_unseen P xs [] a b = a
All-add_unseen P xs (v ∷ vs) a b = elim (Bool-cases (contains xs v)) [
  | inl t ↦ rw t (All-add_unseen P xs vs a b.1)
  | inr t ↦ rw t (All-add_unseen P (xs ++ (v ∷ [])) vs (All-append P xs (v ∷ []) a (b.0, tt)) b.1)
]

All-insert_int : (P : ℤ → Type 0) (v : ℤ) (xs : List ℤ) → P v → All P xs → All P (insert_int v xs)
unfolding insert_int
All-insert_int P v [] p a = (p, tt)
All-insert_int P v (x ∷ xs) p a = elim (Bool-cases (leb_ℤ v x)) [
  | inl t ↦ rw t (p, a)
  | inr t ↦ rw t (a.0, All-insert_int P v xs p a.1)
]

pub All-sort_ints : (P : ℤ → Type 0) (xs : List ℤ) → All P xs → All P (sort_ints xs)
unfolding sort_ints
All-sort_ints P [] a = tt
All-sort_ints P (x ∷ xs) a = All-insert_int P x (sort_ints xs) a.0 (All-sort_ints P xs a.1)

contains-insert_int :
    (v w : ℤ) (xs : List ℤ)
    → contains (insert_int w xs) v ≡ (if eqb_ℤ w v then true else contains xs v)
unfolding insert_int contains
contains-insert_int v w [] = refl
contains-insert_int v w (x ∷ xs) = ground (arith, contains-insert_int v w xs)

pub contains-sort_ints : (xs : List ℤ) (v : ℤ) → contains (sort_ints xs) v ≡ contains xs v
unfolding sort_ints contains
contains-sort_ints [] v = refl
contains-sort_ints (x ∷ xs) v =
    ground (arith, contains-insert_int v x (sort_ints xs), contains-sort_ints xs v)

-- What is above a value is above a lesser one.
All-above : (v x : ℤ) (xs : List ℤ) → v <ℤ x → All (λ y. x <ℤ y) xs → All (λ y. v <ℤ y) xs
All-above v x [] h a = tt
All-above v x (y ∷ xs) h a = (omega (arith, a.0), All-above v x xs h a.1)

insert_int-IsStrict :
    (v : ℤ) (xs : List ℤ) → contains xs v ≡ false → IsStrict xs → IsStrict (insert_int v xs)
unfolding insert_int contains
insert_int-IsStrict v [] h s = (tt, tt)
insert_int-IsStrict v (x ∷ xs) h s = elim (Bool-cases (leb_ℤ v x)) [
  | inl t ↦ let less : v <ℤ x = ground arith in rw t ((less, All-above v x xs less s.0), s)
  | inr t ↦ rw t (
    All-insert_int (λ y. x <ℤ y) v xs (ground arith) s.0,
    insert_int-IsStrict v xs (ground arith) s.1,
  )
]

pub sort_ints-IsStrict : (xs : List ℤ) → IsUnique xs → IsStrict (sort_ints xs)
unfolding sort_ints
sort_ints-IsStrict [] u = tt
sort_ints-IsStrict (x ∷ xs) u =
    insert_int-IsStrict x (sort_ints xs) (contains-sort_ints xs x ∙ u.0) (sort_ints-IsStrict xs u.1)
