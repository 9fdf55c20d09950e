-- ===== src/Agent/Session/Chains.antt =====
-- Tool calls and their results in the turns that `pruneIncompleteToolChains`
-- (cmd/aegis-agent/session.go) keeps.
use aegisvm.Base.{
  ◌≡◌, refl, ap, sym, ◌∙◌, subst, List, [], ◌∷◌, ◌++◌, none, some, String, Bool, true, false,
  if◌then◌else◌, All, All-append, arith, Bool-cases, inl, inr, =s_iff, ℕ, ◌=s◌, if_cases,
}
use mathlib.Core.List.{append_assoc, append-nil}
use aegisvm.Agent.Session.{
  Turn, Session, Chain, is_tool, is_calling, expected_ids, all_present, settle, prune_from,
  prune_incomplete_tool_chains, assemble_context,
}
use aegisvm.Agent.Session.Window.{chain_turns, prune_from-ends, prune_from-goes}

-- The tool results at the front.
abbrev pub tool_run : List Turn → List Turn
tool_run [] = []
tool_run (t ∷ ts) = if is_tool t then t ∷ tool_run ts else []

-- Every call of every assistant turn has its result among the tool results right after the turn.
abbrev pub IsComplete : List Turn → Type 0
IsComplete [] = Unit
IsComplete (t ∷ ts) = (all_present (expected_ids t) (tool_run ts) ≡ true) × IsComplete ts

abbrev EndsRun : List Turn → Type 0
EndsRun [] = Unit
EndsRun (t ∷ ts) = is_tool t ≡ false

abbrev AllTools : List Turn → Type 0
AllTools ts = All (λ t. is_tool t ≡ true) ts

tool_run-append : (rs rest : List Turn) → AllTools rs → EndsRun rest → tool_run (rs ++ rest) ≡ rs
tool_run-append [] [] a e = refl
tool_run-append [] (t ∷ rest) a e = rw e refl
tool_run-append (r ∷ rs) rest h e = rw h.0 (ap (◌∷◌ r) (tool_run-append rs rest h.1 e))

tool_role : ("tool" =s "assistant") ≡ false
unfolding ◌=s◌
tool_role = refl

tool-expected_ids : (t : Turn) → is_tool t ≡ true → expected_ids t ≡ []
unfolding expected_ids
tool-expected_ids t h =
    ground
      (arith, =s_iff t.role "tool", =s_iff t.role "assistant", =s_iff "tool" "assistant", tool_role)

calling-is_tool : (t : Turn) → is_calling t ≡ true → is_tool t ≡ false
calling-is_tool t h = elim (Bool-cases (is_tool t)) [
  | inl k ↦ cc (tool-expected_ids t k)
  | inr k ↦ k
]

IsComplete-tools : (rs rest : List Turn) → AllTools rs → IsComplete rest → IsComplete (rs ++ rest)
unfolding all_present
IsComplete-tools [] rest a c = c
IsComplete-tools (r ∷ rs) rest h c =
    (rw (tool-expected_ids r h.0) refl, IsComplete-tools rs rest h.1 c)

-- A chain that is settled, in front of turns that do not begin with a tool result.
settle-IsComplete :
    (t : Turn) (rs rest : List Turn)
    → AllTools rs
    → EndsRun rest
    → IsComplete rest
    → IsComplete (settle (some (t, rs)) ++ rest)
unfolding settle
settle-IsComplete t rs rest a e c = elim (Bool-cases (all_present (expected_ids t) rs)) [
  | inl h ↦ rw h (
    ap (all_present (expected_ids t)) (tool_run-append rs rest a e) ∙ h,
    IsComplete-tools rs rest a c,
  )
  | inr h ↦ rw h c
]

settle-EndsRun :
    (t : Turn) (rs rest : List Turn)
    → is_tool t ≡ false
    → EndsRun rest
    → EndsRun (settle (some (t, rs)) ++ rest)
unfolding settle
settle-EndsRun t rs rest h e = if_cases (λ ts. EndsRun (ts ++ rest)) _ (t ∷ rs) [] h e

no_calls :
    (ids : List String) (ts : List Turn)
    → (elim ids as (λ _. Bool) [ [] ↦ false | _ ∷ _ ↦ true ]) ≡ false
    → all_present ids ts ≡ true
unfolding all_present
no_calls [] ts h = refl
no_calls (id ∷ ids) ts h = cc

-- A turn where no chain is open.
fresh-IsComplete :
    (u : Turn) (us : List Turn)
    → (is_calling u ≡ true → IsComplete (prune_from (some (u, [])) us))
    → IsComplete (prune_from none us)
    → IsComplete (prune_from none (u ∷ us))
unfolding prune_from
fresh-IsComplete u us a b = elim (Bool-cases (is_calling u)) [
  | inl h ↦ rw h (a h)
  | inr h ↦ rw h (no_calls (expected_ids u) (tool_run (prune_from none us)) h, b)
]

fresh-EndsRun :
    (u : Turn) (us : List Turn)
    → is_tool u ≡ false
    → EndsRun (prune_from (some (u, [])) us)
    → EndsRun (prune_from none (u ∷ us))
unfolding prune_from
fresh-EndsRun u us n a = elim (Bool-cases (is_calling u)) [ inl h ↦ rw h a | inr h ↦ rw h n ]

-- What the loop leaves is complete, and begins with no tool result where a chain is open.
abbrev Leaves : Chain → List Turn → Type 0
Leaves none ts = IsComplete ts
Leaves (some c) ts = IsComplete ts × EndsRun ts

abbrev IsOpen : Chain → Type 0
IsOpen none = Unit
IsOpen (some (t, rs)) = (is_tool t ≡ false) × AllTools rs

settle-Leaves :
    (t : Turn) (rs : List Turn)
    → IsOpen (some (t, rs))
    → Leaves (some (t, rs)) (prune_from (some (t, rs)) [])
unfolding prune_from
settle-Leaves t rs o =
    rw (← append-nil (settle (some (t, rs))))
      (settle-IsComplete t rs [] o.1 tt tt, settle-EndsRun t rs [] o.0 tt)

prune_from-Leaves : (c : Chain) (us : List Turn) → IsOpen c → Leaves c (prune_from c us)
prune_from-Leaves none [] o = nothing
  where
    nothing : IsComplete (prune_from none [])
    nothing = unfold prune_from in tt
prune_from-Leaves (some (t, rs)) [] o = settle-Leaves t rs o
prune_from-Leaves none (u ∷ us) o =
    fresh-IsComplete u us (λ h. (prune_from-Leaves (some (u, [])) us (calling-is_tool u h, tt)).0)
      (prune_from-Leaves none us tt)
prune_from-Leaves (some (t, rs)) (u ∷ us) o = elim (Bool-cases (is_tool u)) [
  | inl h ↦ rw (prune_from-goes t rs u us h) (
      prune_from-Leaves (some (t, rs ++ (u ∷ []))) us
        (o.0, All-append (λ r. is_tool r ≡ true) rs (u ∷ []) o.1 (h, tt)))
  | inr h ↦
      let (whole, ends) = prune_from-Leaves (some (u, [])) us (h, tt) in
      let rest = fresh-IsComplete u us (λ _. whole) (prune_from-Leaves none us tt) in
      let rest_ends = fresh-EndsRun u us h ends in
      rw (prune_from-ends t rs u us h) (
        settle-IsComplete t rs (prune_from none (u ∷ us)) o.1 rest_ends rest,
        settle-EndsRun t rs (prune_from none (u ∷ us)) o.0 rest_ends,
      )
]

-- In the turns that are left every call of an assistant turn has its result among the tool results
-- right after the turn.
pub prune-IsComplete : (ts : List Turn) → IsComplete (prune_incomplete_tool_chains ts)
unfolding prune_incomplete_tool_chains
prune-IsComplete ts = prune_from-Leaves none ts tt

-- In the context that is assembled, whatever the limits cut off and whatever was lost of the
-- conversation, every tool call of an assistant turn has its result among the tool results right
-- after the turn.
pub assemble_context-IsComplete :
    (max_turns max_chars : ℕ) (s : Session) → IsComplete (assemble_context max_turns max_chars s)
unfolding assemble_context
assemble_context-IsComplete m c s = prune-IsComplete _

IsComplete-drop : (rs rest : List Turn) → IsComplete (rs ++ rest) → IsComplete rest
IsComplete-drop [] rest c = c
IsComplete-drop (r ∷ rs) rest c = IsComplete-drop rs rest c.1

settle_kept :
    (t : Turn) (rs rest : List Turn)
    → AllTools rs
    → EndsRun rest
    → IsComplete (t ∷ (rs ++ rest))
    → settle (some (t, rs)) ≡ t ∷ rs
unfolding settle
settle_kept t rs rest a e c =
    let all : all_present (expected_ids t) rs ≡ true =
      ap (all_present (expected_ids t)) (sym (tool_run-append rs rest a e)) ∙ c.0 in
    rw all

fresh_kept :
    (u : Turn) (us : List Turn)
    → (is_calling u ≡ true → prune_from (some (u, [])) us ≡ u ∷ us)
    → prune_from none us ≡ us
    → prune_from none (u ∷ us) ≡ u ∷ us
unfolding prune_from
fresh_kept u us a b = elim (Bool-cases (is_calling u)) [
  | inl h ↦ rw h (a h)
  | inr h ↦ rw h (ap (◌∷◌ u) b)
]

settled_last :
    (t : Turn) (rs : List Turn)
    → AllTools rs
    → IsComplete (t ∷ (rs ++ []))
    → prune_from (some (t, rs)) [] ≡ t ∷ (rs ++ [])
unfolding prune_from
settled_last t rs a c = settle_kept t rs [] a tt c ∙ ap (◌∷◌ t) (sym (append-nil rs))

prune_from_kept :
    (c : Chain) (us : List Turn)
    → IsOpen c
    → IsComplete (chain_turns c ++ us)
    → prune_from c us ≡ chain_turns c ++ us
prune_from_kept none [] o k = nothing
  where
    nothing : prune_from none [] ≡ []
    nothing = unfold prune_from settle in refl
prune_from_kept (some (t, rs)) [] o k = settled_last t rs o.1 k
prune_from_kept none (u ∷ us) o k =
    fresh_kept u us (λ h. prune_from_kept (some (u, [])) us (calling-is_tool u h, tt) k)
      (prune_from_kept none us tt k.1)
prune_from_kept (some (t, rs)) (u ∷ us) o k = elim (Bool-cases (is_tool u)) [
  | inl h ↦
      let regrouped = ap (◌∷◌ t) (append_assoc rs (u ∷ []) us) in
      prune_from-goes t rs u us h
      ∙ prune_from_kept (some (t, rs ++ (u ∷ []))) us
          (o.0, All-append (λ r. is_tool r ≡ true) rs (u ∷ []) o.1 (h, tt))
          (subst IsComplete (sym regrouped) k)
      ∙ regrouped
  | inr h ↦
      let tail : IsComplete (u ∷ us) = IsComplete-drop rs (u ∷ us) k.1 in
      prune_from-ends t rs u us h
      ∙ ap (λ ts. ts ++ prune_from none (u ∷ us)) (settle_kept t rs (u ∷ us) o.1 h k)
      ∙ ap (λ ts. t ∷ (rs ++ ts))
          (fresh_kept u us (λ _. prune_from_kept (some (u, [])) us (h, tt) tail)
            (prune_from_kept none us tt tail.1))
]

-- A conversation in which every call has its result keeps all its turns.
pub prune_kept : (ts : List Turn) → IsComplete ts → prune_incomplete_tool_chains ts ≡ ts
unfolding prune_incomplete_tool_chains
prune_kept ts = prune_from_kept none ts tt
