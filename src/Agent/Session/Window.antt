-- ===== src/Agent/Session/Window.antt =====
-- The window of turns that `assembleContext` (cmd/aegis-agent/session.go) selects.
use aegisvm.Base.{
  ℕ, ◌+◌, ◌≤◌, ◌≡◌, refl, ap, sym, ◌∙◌, subst, List, [], ◌∷◌, ◌++◌, reverse, none, some, if_cases,
  Bool, true, false, ltb, length, arith, Bool-cases, inl, inr,
}
use mathlib.Core.List.{append_assoc, append-nil, reverse-cons, reverse-reverse}
use aegisvm.Agent.Session.{
  Turn, Session, turn_size, prune_incomplete_tool_chains, assemble_context, select_recent,
  trim_tools, trim_calls, is_tool, Chain, settle, prune_from, is_calling,
}

-- Some of the elements of a list, in their order.
pub data Subsequence : List Turn → List Turn → Type 0 where
  done : Subsequence [] []
  keep : (t : Turn) {xs ys : List Turn} → Subsequence xs ys → Subsequence (t ∷ xs) (t ∷ ys)
  skip : (t : Turn) {xs ys : List Turn} → Subsequence xs ys → Subsequence xs (t ∷ ys)

pub Subsequence-refl : (xs : List Turn) → Subsequence xs xs
Subsequence-refl [] = done
Subsequence-refl (t ∷ xs) = keep t (Subsequence-refl xs)

pub Subsequence-nil : (ys : List Turn) → Subsequence [] ys
Subsequence-nil [] = done
Subsequence-nil (t ∷ ys) = skip t (Subsequence-nil ys)

pub Subsequence-append :
    {xs ys xs' ys' : List Turn}
    → Subsequence xs ys
    → Subsequence xs' ys'
    → Subsequence (xs ++ xs') (ys ++ ys')
Subsequence-append done r = r
Subsequence-append (keep t s) r = keep t (Subsequence-append s r)
Subsequence-append (skip t s) r = skip t (Subsequence-append s r)

pub Subsequence-trans :
    {xs ys zs : List Turn} → Subsequence xs ys → Subsequence ys zs → Subsequence xs zs
Subsequence-trans done s = s
Subsequence-trans (keep t r) (keep _ s) = keep t (Subsequence-trans r s)
Subsequence-trans (keep t r) (skip u s) = skip u (Subsequence-trans (keep t r) s)
Subsequence-trans (skip t r) (keep _ s) = skip t (Subsequence-trans r s)
Subsequence-trans (skip t r) (skip u s) = skip u (Subsequence-trans (skip t r) s)

abbrev pub total_size : List Turn → ℕ
total_size [] = 0
total_size (t ∷ ts) = turn_size t + total_size ts

-- Fewer turns, and smaller ones.
pub Subsequence-le :
    {xs ys : List Turn}
    → Subsequence xs ys
    → (length xs ≤ length ys) × (total_size xs ≤ total_size ys)
Subsequence-le done = (omega arith, omega arith)
Subsequence-le (keep t s) = let (a, b) = Subsequence-le s in (omega arith, omega arith)
Subsequence-le (skip t s) = let (a, b) = Subsequence-le s in (omega arith, omega arith)

-- The window that the loop leaves: within both limits, and the last turns of the conversation.
record IsWindow (max_turns max_chars : ℕ) (all window : List Turn) : Type 0 where
  pub count : length window ≤ max_turns
  pub size : total_size window ≤ max_chars
  pub before : List Turn
  pub suffix : all ≡ before ++ window

regroup :
    (t : Turn) (older selected : List Turn)
    → reverse older ++ (t ∷ selected) ≡ reverse (t ∷ older) ++ selected
regroup t older selected =
    sym (append_assoc (reverse older) (t ∷ []) selected)
    ∙ ap (λ xs. xs ++ selected) (sym (reverse-cons t older))

select_recent-IsWindow :
    (max_turns max_chars total : ℕ) (selected older : List Turn)
    → total ≡ total_size selected
    → length selected ≤ max_turns
    → total_size selected ≤ max_chars
    → IsWindow max_turns max_chars
        (reverse older ++ selected)
        (select_recent max_turns max_chars total selected older)
unfolding select_recent
select_recent-IsWindow m c total selected [] e h k = record {
  count = h;
  size = k;
  before = [];
  suffix = refl;
}
select_recent-IsWindow m c total selected (t ∷ older) e h k =
    let stop : IsWindow m c (reverse (t ∷ older) ++ selected) selected = record {
      count = h;
      size = k;
      before = reverse (t ∷ older);
      suffix = refl;
    } in
    elim (Bool-cases (ltb (length selected) m)) [
      | inl u ↦ elim (Bool-cases (ltb c (total + turn_size t))) [
        | inl v ↦ rw (u, v) stop
        | inr v ↦
            let more : IsWindow m c (reverse older ++ (t ∷ selected))
                (select_recent m c (total + turn_size t) (t ∷ selected) older) =
              select_recent-IsWindow m c (total + turn_size t) (t ∷ selected) older (omega arith)
                (ground arith) (ground arith) in
            rw (u, v)
              (subst
                (λ all.
                  IsWindow m c all (select_recent m c (total + turn_size t) (t ∷ selected) older))
                (regroup t older selected) more)
      ]
      | inr u ↦ rw u stop
    ]

trim_tools-Subsequence : (ts : List Turn) → Subsequence (trim_tools ts) ts
unfolding trim_tools
trim_tools-Subsequence [] = done
trim_tools-Subsequence (t ∷ ts) = elim (Bool-cases (is_tool t)) [
  | inl h ↦ rw h (skip t (trim_tools-Subsequence ts))
  | inr h ↦ rw h (Subsequence-refl (t ∷ ts))
]

trim_calls-Subsequence : (b : Bool) (ts : List Turn) → Subsequence (trim_calls b ts) ts
unfolding trim_calls
trim_calls-Subsequence b [] = done
trim_calls-Subsequence b (t ∷ ts) =
    if_cases (λ xs. Subsequence xs (t ∷ ts)) _ _ _ (skip t (trim_calls-Subsequence true ts))
      (Subsequence-refl (t ∷ ts))

-- The turns that a chain holds.
abbrev pub chain_turns : Chain → List Turn
chain_turns none = []
chain_turns (some (t, answers)) = t ∷ answers

settle-Subsequence : (c : Chain) → Subsequence (settle c) (chain_turns c)
unfolding settle
settle-Subsequence none = done
settle-Subsequence (some (t, answers)) =
    if_cases (λ xs. Subsequence xs (t ∷ answers)) _ _ _ (Subsequence-refl (t ∷ answers))
      (Subsequence-nil (t ∷ answers))

-- A turn that is no tool result ends the chain that is open.
pub prune_from-ends :
    (t : Turn) (answers : List Turn) (u : Turn) (us : List Turn)
    → is_tool u ≡ false
    → prune_from (some (t, answers)) (u ∷ us)
      ≡ settle (some (t, answers)) ++ prune_from none (u ∷ us)
unfolding prune_from
prune_from-ends t answers u us h = rw h (append_assoc (settle (some (t, answers))) _ _)

-- A tool result goes to the chain that is open.
pub prune_from-goes :
    (t : Turn) (answers : List Turn) (u : Turn) (us : List Turn)
    → is_tool u ≡ true
    → prune_from (some (t, answers)) (u ∷ us) ≡ prune_from (some (t, answers ++ (u ∷ []))) us
unfolding prune_from
prune_from-goes t answers u us h = rw h

fresh-Subsequence :
    (u : Turn) (us : List Turn)
    → Subsequence (prune_from (some (u, [])) us) (u ∷ us)
    → Subsequence (prune_from none us) us
    → Subsequence (prune_from none (u ∷ us)) (u ∷ us)
unfolding prune_from
fresh-Subsequence u us a b = elim (Bool-cases (is_calling u)) [
  | inl h ↦ rw h a
  | inr h ↦ rw h (keep u b)
]

pub prune_from-Subsequence :
    (c : Chain) (us : List Turn) → Subsequence (prune_from c us) (chain_turns c ++ us)
prune_from-Subsequence c [] =
    unfold prune_from in
    subst (λ xs. Subsequence (settle c) xs) (sym (append-nil (chain_turns c)))
      (settle-Subsequence c)
prune_from-Subsequence none (u ∷ us) =
    fresh-Subsequence u us (prune_from-Subsequence (some (u, [])) us)
      (prune_from-Subsequence none us)
prune_from-Subsequence (some (t, answers)) (u ∷ us) = elim (Bool-cases (is_tool u)) [
  | inl h ↦ rw (prune_from-goes t answers u us h) (
      subst (Subsequence (prune_from (some (t, answers ++ (u ∷ []))) us))
        (ap (◌∷◌ t) (append_assoc answers (u ∷ []) us))
        (prune_from-Subsequence (some (t, answers ++ (u ∷ []))) us))
  | inr h ↦ rw (prune_from-ends t answers u us h) (
      Subsequence-append (settle-Subsequence (some (t, answers))) (
        fresh-Subsequence u us (prune_from-Subsequence (some (u, [])) us)
          (prune_from-Subsequence none us)))
]

pub prune-Subsequence : (ts : List Turn) → Subsequence (prune_incomplete_tool_chains ts) ts
unfolding prune_incomplete_tool_chains
prune-Subsequence ts = prune_from-Subsequence none ts

-- The context that is assembled, without its system prompt, is a subsequence of the conversation,
-- and within both limits.
pub assemble_context-Subsequence :
    (max_turns max_chars : ℕ) (s : Session)
    → let context = assemble_context max_turns max_chars s in
      Subsequence context s.turns × (length context ≤ max_turns) × (total_size context ≤ max_chars)
unfolding assemble_context
assemble_context-Subsequence m c s =
    let chosen = select_recent m c 0 [] (reverse s.turns) in
    let w = select_recent-IsWindow m c 0 [] (reverse s.turns) refl (omega arith) (omega arith) in
    let kept : Subsequence (assemble_context m c s) chosen =
      Subsequence-trans (prune-Subsequence (trim_calls false (trim_tools chosen))) (
        Subsequence-trans (trim_calls-Subsequence false (trim_tools chosen))
          (trim_tools-Subsequence chosen)) in
    let (a, b) = Subsequence-le kept in
    let whole : s.turns ≡ w.before ++ chosen =
      sym (reverse-reverse s.turns) ∙ sym (append-nil (reverse (reverse s.turns))) ∙ w.suffix in
    (
      Subsequence-trans kept (
          subst (Subsequence chosen) (sym whole)
            (Subsequence-append (Subsequence-nil w.before) (Subsequence-refl chosen))),
      omega (arith, w.count),
      omega (arith, w.size),
    )
