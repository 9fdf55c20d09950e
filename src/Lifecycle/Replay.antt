-- ===== src/Lifecycle/Replay.antt =====
-- What the effects of internal/lifecycle/manager.go add up to outside: the VM that is up, and the
-- state that the state-change callback (which persists it) heard last.
use aegisvm.Base.{
  ℕ, List, [], ◌∷◌, ◌++◌, map, Option, none, some, String, ℤ, Bool, true, false, ◌≡◌, refl, ◌==◌,
  if◌then◌else◌, arith,
}
use aegisvm.Lifecycle.Types.{State, Effect, notify, start_vm, stop_vm, exec_exit}

abbrev same_vm : Option ℕ → Option ℕ → Bool
same_vm none none = true
same_vm none (some _) = false
same_vm (some _) none = false
same_vm (some a) (some b) = a == b

-- Stopping a VM that is not the one that is up changes nothing.
abbrev vm_step : Effect → Option ℕ → Option ℕ
vm_step (start_vm h) v = h
vm_step (stop_vm h) v = if same_vm h v then none else v
vm_step _ v = v

unfoldable pub vm_after : List Effect → Option ℕ → Option ℕ
vm_after [] v = v
vm_after (e ∷ es) v = vm_after es (vm_step e v)

abbrev told_step : Effect → State → State
told_step (notify s) _ = s
told_step _ s = s

unfoldable pub told_after : List Effect → State → State
told_after [] s = s
told_after (e ∷ es) s = told_after es (told_step e s)

pub vm_after-append :
    (xs ys : List Effect) (v : Option ℕ) → vm_after (xs ++ ys) v ≡ vm_after ys (vm_after xs v)
unfolding vm_after
vm_after-append [] ys v = refl
vm_after-append (e ∷ xs) ys v = vm_after-append xs ys (vm_step e v)

pub told_after-append :
    (xs ys : List Effect) (s : State) → told_after (xs ++ ys) s ≡ told_after ys (told_after xs s)
unfolding told_after
told_after-append [] ys s = refl
told_after-append (e ∷ xs) ys s = told_after-append xs ys (told_step e s)

-- Exec waiters that are told of an exit are no concern of either.
pub vm_after-exits :
    (ws : List String) (code : ℤ) (v : Option ℕ) → vm_after (map (λ e. exec_exit e code) ws) v ≡ v
unfolding vm_after
vm_after-exits [] code v = refl
vm_after-exits (w ∷ ws) code v = vm_after-exits ws code v

pub told_after-exits :
    (ws : List String) (code : ℤ) (s : State) → told_after (map (λ e. exec_exit e code) ws) s ≡ s
unfolding told_after
told_after-exits [] code s = refl
told_after-exits (w ∷ ws) code s = told_after-exits ws code s

-- A VM that is started and stopped leaves nothing up.
pub stop_after_start : (h : ℕ) (v : Option ℕ) → v ≡ some h → vm_step (stop_vm (some h)) v ≡ none
stop_after_start h none e = refl
stop_after_start h (some k) e = ground arith
