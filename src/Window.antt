-- ===== src/Window.antt =====
-- A circular array read from its head, as the ring buffers of internal/tether/store.go and
-- internal/logstore/logstore.go read theirs: entry `i` is at index `(head + i) % cap`.
use native.Mathlib.Nat.{mod-lt, mod-eq_of_lt, mod-eq-sub-mod, mod-add-mod}
use native.Mathlib.Decide.{dec_lt}
use aegisvm.Base.{
  ◌⊎◌, inl, inr, ℕ, zero, suc, ◌+◌, ◌-◌, ◌%◌, ◌≤◌, ◌<◌, ◌≡◌, ◌≢◌, refl, ap, ap₂, ◌∙◌, List, [], ◌∷◌,
  ◌++◌, arith, length, get_or, set, get_or-set_self, get_or-set_ne, drop,
}

module _ {ℓ} {A : Type ℓ} (cap : ℕ) (d : A) where
  -- The `n` entries from number `s` on.
  unfoldable pub window : List A → ℕ → ℕ → ℕ → List A
  window xs h s zero = []
  window xs h s (suc n) = get_or xs ((h + s) % cap) d ∷ window xs h (suc s) n

  pub length-window : (xs : List A) (h s n : ℕ) → length (window xs h s n) ≡ n
  unfolding window
  length-window xs h s zero = refl
  length-window xs h s (suc n) = ap suc (length-window xs h (suc s) n)

  pub window-suc :
      (xs : List A) (h s n : ℕ)
      → window xs h s (suc n) ≡ window xs h s n ++ (get_or xs ((h + (s + n)) % cap) d ∷ [])
  unfolding window
  window-suc xs h s zero = ap (λ k. get_or xs ((h + k) % cap) d ∷ []) (omega arith)
  window-suc xs h s (suc n) = ap (◌∷◌ (get_or xs ((h + s) % cap) d)) (
      window-suc xs h (suc s) n
      ∙ ap (λ k. window xs h (suc s) n ++ (get_or xs ((h + k) % cap) d ∷ [])) (omega arith))

  -- Advancing the head drops the first entry.
  pub window-next :
      (xs : List A) (h s n : ℕ) → window xs ((h + 1) % cap) s n ≡ window xs h (suc s) n
  unfolding window
  window-next xs h s zero = refl
  window-next xs h s (suc n) =
      ap₂ ◌∷◌
        (ap (λ k. get_or xs k d) (mod-add-mod (h + 1) cap s ∙ ap (λ k. k % cap) (omega arith)))
        (window-next xs h (suc s) n)

-- The index of an entry less than a round from the head.
wrapped :
    (cap h k : ℕ)
    → h < cap
    → k < cap
    → ((h + k < cap) × ((h + k) % cap ≡ h + k)) ⊎ ((cap ≤ h + k) × ((h + k) % cap + cap ≡ h + k))
wrapped cap h k p q = elim (dec_lt (h + k) cap) [
  | yes r ↦ inl (r, mod-eq_of_lt r)
  | no r ↦ inr (
    omega arith,
    omega (
      arith,
      mod-eq-sub-mod {n = h + k} {m = cap} (omega arith),
      mod-eq_of_lt {n = h + k - cap} {m = cap} (omega arith),
    ),
  )
]

pub wrapped-lt : (cap h k : ℕ) → h < cap → k < cap → (h + k) % cap < cap
wrapped-lt cap h k p q = omega (arith, wrapped cap h k p q)

wrapped-ne : (cap h j k : ℕ) → h < cap → j < cap → k < cap → j ≢ k → (h + j) % cap ≢ (h + k) % cap
wrapped-ne cap h j k p q r ne e = omega (arith, wrapped cap h j p q, wrapped cap h k p r)

module _ {ℓ} {A : Type ℓ} (cap : ℕ) (d : A) where
  -- Writing entry `k` leaves the entries before it alone.
  window-set :
      (xs : List A) (v : A) (h s n k : ℕ)
      → h < cap
      → k < cap
      → s + n ≤ k
      → window cap d (set xs ((h + k) % cap) v) h s n ≡ window cap d xs h s n
  unfolding window
  window-set xs v h s zero k p q r = refl
  window-set xs v h s (suc n) k p q r =
      ap₂ ◌∷◌
        (get_or-set_ne xs ((h + k) % cap) ((h + s) % cap) v d
          (wrapped-ne cap h k s p q (omega arith) (omega arith)))
        (window-set xs v h (suc s) n k p q (omega arith))

  -- Writing just past `n` entries makes one more of them.
  pub window-write :
      (xs : List A) (v : A) (h n : ℕ)
      → cap ≤ length xs
      → h < cap
      → n < cap
      → window cap d (set xs ((h + n) % cap) v) h 0 (suc n) ≡ window cap d xs h 0 n ++ (v ∷ [])
  window-write xs v h n l p q =
      window-suc cap d (set xs ((h + n) % cap) v) h 0 n
      ∙ ap₂ (λ ys (y : A). ys ++ (y ∷ [])) (window-set xs v h 0 n n p q (omega arith)) here
    where
      here : get_or (set xs ((h + n) % cap) v) ((h + (0 + n)) % cap) d ≡ v
      here =
          ap (λ k. get_or (set xs ((h + n) % cap) v) ((h + k) % cap) d) (omega arith)
          ∙ get_or-set_self xs ((h + n) % cap) v d (omega (arith, wrapped-lt cap h n p q))

  -- Writing over the first of `n` entries, with the head advanced, is a rotation.
  pub window-rotate :
      (xs : List A) (v : A) (h n : ℕ)
      → cap ≤ length xs
      → h < cap
      → cap ≡ suc n
      → window cap d (set xs (((h + 1) % cap + n) % cap) v) ((h + 1) % cap) 0 (suc n)
        ≡ drop 1 (window cap d xs h 0 (suc n)) ++ (v ∷ [])
  unfolding window
  window-rotate xs v h n l p e =
      window-write xs v ((h + 1) % cap) n l (mod-lt (h + 1) (omega arith)) (omega arith)
      ∙ ap (λ ys. ys ++ (v ∷ [])) (window-next cap d xs h 0 n)
