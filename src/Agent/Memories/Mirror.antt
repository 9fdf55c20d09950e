-- ===== src/Agent/Memories/Mirror.antt =====
-- The memories of cmd/aegis-agent/memory.go against their file, over calls and restarts.
use aegisvm.Base.{
  ℕ, zero, suc, ◌+◌, ◌-◌, ◌≤◌, ◌<◌, ◌≡◌, refl, ap, sym, subst, ◌∙◌, List, [], ◌∷◌, ◌++◌, Option,
  none, some, true, not, ltb, leb, if_cases, if_elim, All, All-append, length, length-append, drop,
  same_text, byte_length, arith,
}
use aegisvm.Agent.Memories.{
  MemoryEntry, MemoryStore, MemoryFile, Memories, has_text, loaded_entries, load_file, load,
  max_line, new_memory_store, reload_file, reload_if_changed, MemoryIo, rewrite_file, capacity,
  prune_oldest, lines_of, MemoryReply, MemoryRequest, new_memory, add_memory, remember, knows,
  others, forget_in, forget,
}
use aegisvm.Agent.Memories.Search.{recall}

pub data MemoryOp : Type 0 where
  remembers : MemoryIo → MemoryRequest → MemoryOp
  forgets : MemoryIo → List ℕ → MemoryOp
  recalls : List ℕ → List ℕ → MemoryOp
  -- The agent starts again, with the file that is there.
  restarts : MemoryOp

unfoldable pub do_op : (MemoryEntry → ℕ) → MemoryOp → Memories → Memories
do_op size (remembers io req) m = (remember size io req m).0
do_op size (forgets io id) m = (forget size io id m).0
do_op size (recalls query tag) m = (recall size query tag m).0
do_op size restarts m = new_memory_store size m.store.max_total m.file

unfoldable pub do_ops : (MemoryEntry → ℕ) → List MemoryOp → Memories → Memories
unfolding do_op
do_ops size [] m = m
do_ops size (o ∷ os) m = do_ops size os (do_op size o m)

-- The lines of the entries are shorter than the buffer of `Load`.
abbrev pub Short : (MemoryEntry → ℕ) → List MemoryEntry → Type 0
Short size es = All (λ (e : MemoryEntry). ltb (size e) max_line ≡ true) es

-- They are so at each call.
abbrev pub StayShort : (MemoryEntry → ℕ) → List MemoryOp → Memories → Type 0
StayShort size [] m = Unit
StayShort size (o ∷ os) m = Short size m.store.entries × StayShort size os (do_op size o m)

-- The file system does what it is asked for.
abbrev pub Works : MemoryOp → Type 0
Works (remembers io req) = (io.rewrites ≡ true) × (io.opens ≡ true)
Works (forgets io id) = io.rewrites ≡ true
Works (recalls query tag) = Unit
Works restarts = Unit

abbrev pub Synced : Option MemoryFile → MemoryStore → Type 0
Synced none s = s.entries ≡ []
Synced (some f) s = (f.lines ≡ s.entries) × (f.changed_at ≡ s.mtime)

-- The file has just the entries in memory; they have ids, and are no more than the capacity.
pub record IsKept (m : Memories) : Type 0 where
  pub synced : Synced m.file m.store
  pub named : All (λ (e : MemoryEntry). has_text e.id ≡ true) m.store.entries
  pub few : length m.store.entries ≤ capacity m.store

loaded_entries-named :
    (size : MemoryEntry → ℕ) (es : List MemoryEntry)
    → Short size es
    → All (λ (e : MemoryEntry). has_text e.id ≡ true) es
    → loaded_entries size es ≡ es
unfolding loaded_entries
loaded_entries-named size [] t a = refl
loaded_entries-named size (e ∷ es) t a =
    rw (t.0, a.0) (ap (λ r. e ∷ r) (loaded_entries-named size es t.1 a.1))

reload_file-Synced :
    (size : MemoryEntry → ℕ) (o : Option MemoryFile) (m : Memories)
    → Synced o m.store
    → reload_file size o m ≡ m
unfolding reload_file
reload_file-Synced size none m h = refl
reload_file-Synced size (some f) m h =
    if_elim (λ r. r ≡ m) (ltb m.store.mtime f.changed_at) _ _ (λ t. absurd (ground (arith, h.1)))
      (λ t. refl)

reload-IsKept : (size : MemoryEntry → ℕ) (m : Memories) → IsKept m → reload_if_changed size m ≡ m
unfolding reload_if_changed
reload-IsKept size m v = reload_file-Synced size m.file m v.synced

length-drop : (n : ℕ) (es : List MemoryEntry) → length (drop n es) ≡ length es - n
length-drop zero es = omega arith
length-drop (suc n) [] = omega arith
length-drop (suc n) (e ∷ es) = omega (arith, length-drop n es)

All-drop : (P : MemoryEntry → Type 0) (n : ℕ) (es : List MemoryEntry) → All P es → All P (drop n es)
All-drop P zero es a = a
All-drop P (suc n) [] a = tt
All-drop P (suc n) (e ∷ es) a = All-drop P n es a.1

-- There is room for one more.
record HasRoom (m : Memories) : Type 0 where
  kept : IsKept m
  room : length m.store.entries < capacity m.store

capacity-pos : (s : MemoryStore) → 0 < capacity s
capacity-pos s = ground arith

prune_oldest-HasRoom :
    (io : MemoryIo) (m : Memories) → io.rewrites ≡ true → IsKept m → HasRoom (prune_oldest io m)
unfolding prune_oldest rewrite_file
prune_oldest-HasRoom io m w v =
    let n = length m.store.entries - capacity m.store + 1 in
    let short : length (drop n m.store.entries) < capacity m.store =
      omega (arith, length-drop n m.store.entries, capacity-pos m.store, v.few) in
    if_elim HasRoom (leb (capacity m.store) (length m.store.entries)) _ _
      (λ t. rw w (record {
        kept = record {
          synced = (refl, refl);
          named = All-drop _ n m.store.entries v.named;
          few = omega (arith, short);
        };
        room = short;
      }))
      (λ t. record { kept = v; room = ground arith })

lines_of-Synced : (o : Option MemoryFile) (s : MemoryStore) → Synced o s → lines_of o ≡ s.entries
lines_of-Synced none s h = sym h
lines_of-Synced (some f) s h = h.0

add_memory-IsKept :
    (io : MemoryIo) (req : MemoryRequest) (m : Memories)
    → io.opens ≡ true
    → HasRoom m
    → IsKept (add_memory io req m).0
unfolding add_memory new_memory
add_memory-IsKept io req m w v = rw w (record {
  synced = (
    ap (λ es. es ++ (new_memory req m.store.next_id ∷ []))
        (lines_of-Synced m.file m.store v.kept.synced),
    refl,
  );
  named = All-append _ m.store.entries _ v.kept.named (refl, tt);
  few = omega (arith, length-append m.store.entries (new_memory req m.store.next_id ∷ []), v.room);
})

remember-IsKept :
    (size : MemoryEntry → ℕ) (io : MemoryIo) (req : MemoryRequest) (m : Memories)
    → io.rewrites ≡ true
    → io.opens ≡ true
    → IsKept m
    → IsKept (remember size io req m).0
unfolding remember
remember-IsKept size io req m w o v =
    let added : IsKept (add_memory io req (prune_oldest io (reload_if_changed size m))).0 =
      add_memory-IsKept io req _ o
        (prune_oldest-HasRoom io _ w (subst IsKept (sym (reload-IsKept size m v)) v)) in
    if_cases (λ (r : Memories × MemoryReply). IsKept r.0) (not (has_text req.text)) _ _ v
      (if_cases (λ (r : Memories × MemoryReply). IsKept r.0) (ltb 500 (byte_length req.text)) _ _ v
        (if_cases (λ (r : Memories × MemoryReply). IsKept r.0) req.secret _ _ v added))

module _ (id : List ℕ) where
  length-others : (es : List MemoryEntry) → length (others id es) ≤ length es
  unfolding others
  length-others [] = omega arith
  length-others (e ∷ es) = ground (arith, length-others es)

  All-others : (P : MemoryEntry → Type 0) (es : List MemoryEntry) → All P es → All P (others id es)
  unfolding others
  All-others P [] a = tt
  All-others P (e ∷ es) a =
      if_cases (All P) (same_text e.id id) _ _ (All-others P es a.1) (a.0, All-others P es a.1)

  forget_in-IsKept :
      (io : MemoryIo) (m : Memories) → io.rewrites ≡ true → IsKept m → IsKept (forget_in io id m).0
  unfolding forget_in rewrite_file
  forget_in-IsKept io m w v =
      if_cases (λ (r : Memories × MemoryReply). IsKept r.0) (knows id m.store.entries) _ _
        (rw w (record {
          synced = (refl, refl);
          named = All-others _ m.store.entries v.named;
          few = omega (arith, length-others m.store.entries, v.few);
        }))
        v

load_file-IsKept :
    (size : MemoryEntry → ℕ) (m : Memories) (o : Option MemoryFile)
    → Synced o m.store
    → Short size m.store.entries
    → IsKept m
    → let s : MemoryStore = record {
      entries = [];
      next_id = 0;
      mtime = 0;
      max_total = m.store.max_total;
    } in
      IsKept (record { store = load_file size o s; file = o })
unfolding load_file
load_file-IsKept size m none h t v = record { synced = refl; named = tt; few = omega arith }
load_file-IsKept size m (some f) h t v =
    let same : loaded_entries size f.lines ≡ m.store.entries =
      ap (loaded_entries size) h.0 ∙ loaded_entries-named size m.store.entries t v.named in
    record {
      synced = (h.0 ∙ sym same, refl);
      named = subst (All (λ (e : MemoryEntry). has_text e.id ≡ true)) (sym same) v.named;
      few = rw same v.few;
    }

do_op-IsKept :
    (size : MemoryEntry → ℕ) (o : MemoryOp) (m : Memories)
    → Works o
    → Short size m.store.entries
    → IsKept m
    → IsKept (do_op size o m)
unfolding do_op forget recall new_memory_store load
do_op-IsKept size (remembers io req) m w t v = remember-IsKept size io req m w.0 w.1 v
do_op-IsKept size (forgets io id) m w t v =
    forget_in-IsKept id io (reload_if_changed size m) w
      (subst IsKept (sym (reload-IsKept size m v)) v)
do_op-IsKept size (recalls query tag) m w t v = subst IsKept (sym (reload-IsKept size m v)) v
do_op-IsKept size restarts m w t v = load_file-IsKept size m m.file v.synced t v

-- Where the file system does what it is asked for, nothing else writes the file, and at each call the
-- entries in memory have lines that fit the buffer of `Load` (shorter than 64 KiB), the memories and
-- their file stay in step over any calls of store, delete and search and any restarts: the file has
-- just the entries in memory, in order; all have ids; and they are no more than the capacity.
pub do_ops-IsKept :
    (size : MemoryEntry → ℕ) (os : List MemoryOp) (m : Memories)
    → All Works os
    → StayShort size os m
    → IsKept m
    → IsKept (do_ops size os m)
unfolding do_ops
do_ops-IsKept size [] m w t v = v
do_ops-IsKept size (o ∷ os) m w t v =
    do_ops-IsKept size os (do_op size o m) w.1 t.1 (do_op-IsKept size o m w.0 t.0 v)
