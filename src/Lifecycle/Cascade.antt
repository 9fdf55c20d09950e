-- ===== src/Lifecycle/Cascade.antt =====
-- `StopInstance` with `CascadeStopChildren` (internal/lifecycle): the instances below a stopped one.
use aegisvm.Base.{
  ℕ, zero, suc, List, [], ◌∷◌, Option, none, some, String, Bool, true, false, ◌≡◌, refl, =s_iff,
  arith, if_cases, if_elim, lookup, lookup-insert, All,
}
use aegisvm.Lifecycle.Types.{Instance, Effect, is_stopped}
use aegisvm.Lifecycle.Stop.{stop_instance}
use aegisvm.Lifecycle.Manager.{
  Manager, on_found, on_instance, children, stop_all, stop_found, stop_tree,
}

abbrev pub is_down : Option Instance → Bool
is_down none = true
is_down (some i) = is_stopped i.state

-- The instance is stopped, or there is none.
abbrev pub Down : Manager → String → Type 0
Down m j = is_down (lookup j m.instances) ≡ true

stop_instance-stopped :
    (now : ℕ) (i : Instance) → is_stopped (stop_instance now i).inst.state ≡ true
unfolding stop_instance
stop_instance-stopped now i = ground arith

stop_instance-frame : (now : ℕ) (i : Instance) → (stop_instance now i).inst.spec ≡ i.spec
unfolding stop_instance
stop_instance-frame now i = ground arith

abbrev pub stopped_in : ℕ → String → Manager → Manager
stopped_in now id m = (on_instance m id (stop_instance now)).manager

found-keeps :
    (now : ℕ) (id j : String) (m : Manager) (o : Option Instance)
    → Down m j
    → Down (on_found m id (stop_instance now) o).manager j
unfolding on_found
found-keeps now id j m none d = d
found-keeps now id j m (some i) d =
    rw (lookup-insert id j (stop_instance now i).inst m.instances)
      (ground (arith, stop_instance-stopped now i))

stopped_in-keeps : (now : ℕ) (id j : String) (m : Manager) → Down m j → Down (stopped_in now id m) j
unfolding on_instance
stopped_in-keeps now id j m d = found-keeps now id j m (lookup id m.instances) d

found-Down :
    (now : ℕ) (id : String) (m : Manager) (o : Option Instance)
    → lookup id m.instances ≡ o
    → Down (on_found m id (stop_instance now) o).manager id
unfolding on_found
found-Down now id m none h = rw h refl
found-Down now id m (some i) h =
    rw (lookup-insert id id (stop_instance now i).inst m.instances)
      (ground (arith, stop_instance-stopped now i, =s_iff id id))

stopped_in-Down : (now : ℕ) (id : String) (m : Manager) → Down (stopped_in now id m) id
unfolding on_instance
stopped_in-Down now id m = found-Down now id m (lookup id m.instances) refl

abbrev Keeps : (String → Manager → Manager × List (String × Effect)) → Type 0
Keeps stop = (id j : String) (m : Manager) → Down m j → Down (stop id m).0 j

stop_all-Keeps :
    (stop : String → Manager → Manager × List (String × Effect)) (ids : List String)
    → Keeps stop
    → (j : String) (m : Manager) → Down m j
    → Down (stop_all stop ids m).0 j
unfolding stop_all
stop_all-Keeps stop [] k j m d = d
stop_all-Keeps stop (id ∷ ids) k j m d = stop_all-Keeps stop ids k j (stop id m).0 (k id j m d)

-- All the ids of the list are stopped at the end, where each call stops its own and keeps the rest.
stop_all-Down :
    (stop : String → Manager → Manager × List (String × Effect)) (ids : List String)
    → Keeps stop
    → ((id : String) (m : Manager) → Down (stop id m).0 id)
    → (m : Manager) → All (Down (stop_all stop ids m).0) ids
unfolding stop_all
stop_all-Down stop [] k d m = tt
stop_all-Down stop (id ∷ ids) k d m =
    (stop_all-Keeps stop ids k id (stop id m).0 (d id m), stop_all-Down stop ids k d (stop id m).0)

found_tree-Keeps :
    (fuel now : ℕ) (id j : String) (m : Manager) (o : Option Instance)
    → Keeps (stop_tree fuel now)
    → Down m j
    → Down (stop_found (stop_all (stop_tree fuel now)) now id m o).0 j
unfolding stop_found
found_tree-Keeps fuel now id j m none k d = d
found_tree-Keeps fuel now id j m (some i) k d =
    if_cases (λ (r : Manager × List (String × Effect)). Down r.0 j) (is_stopped i.state) _ _ d
      (stop_all-Keeps (stop_tree fuel now) (children id (stopped_in now id m).instances) k j
        (stopped_in now id m) (stopped_in-keeps now id j m d))

stop_tree-Keeps : (fuel now : ℕ) → Keeps (stop_tree fuel now)
unfolding stop_tree
stop_tree-Keeps zero now id j m d = d
stop_tree-Keeps (suc fuel) now id j m d =
    found_tree-Keeps fuel now id j m (lookup id m.instances) (stop_tree-Keeps fuel now) d

found_tree-Down :
    (fuel now : ℕ) (id : String) (m : Manager) (o : Option Instance)
    → lookup id m.instances ≡ o
    → Down (stop_found (stop_all (stop_tree fuel now)) now id m o).0 id
unfolding stop_found
found_tree-Down fuel now id m none h = rw h refl
found_tree-Down fuel now id m (some i) h =
    if_elim (λ (r : Manager × List (String × Effect)). Down r.0 id) (is_stopped i.state) _ _
      (λ s. rw h s)
      (λ _.
        stop_all-Keeps (stop_tree fuel now) (children id (stopped_in now id m).instances)
          (stop_tree-Keeps fuel now) id (stopped_in now id m) (stopped_in-Down now id m))

stop_tree-Down :
    (fuel now : ℕ) (id : String) (m : Manager) → Down (stop_tree (suc fuel) now id m).0 id
unfolding stop_tree
stop_tree-Down fuel now id m = found_tree-Down fuel now id m (lookup id m.instances) refl

-- Stopping an instance that is up, with fuel for two levels or more, leaves it and each of its
-- children (as they stand once it is itself stopped) stopped or absent, and keeps so every instance
-- that was so before.
pub stop_tree-children :
    (fuel now : ℕ) (id : String) (m : Manager) (i : Instance)
    → lookup id m.instances ≡ some i
    → is_stopped i.state ≡ false
    → let m' = (stop_tree (suc (suc fuel)) now id m).0 in
      Down m' id
      × All (Down m') (children id (stopped_in now id m).instances)
      × ((j : String) → Down m j → Down m' j)
stop_tree-children fuel now id m i h u = (
  stop_tree-Down (suc fuel) now id m,
  unfold stop_tree stop_found in
      rw (h, u)
        (stop_all-Down (stop_tree (suc fuel) now) (children id (stopped_in now id m).instances)
          (stop_tree-Keeps (suc fuel) now) (stop_tree-Down fuel now) (stopped_in now id m)),
  λ j d. stop_tree-Keeps (suc (suc fuel)) now id j m d,
)
