-- ===== src/Tether/Store/Mirror.antt =====
-- The persisted frames against the ring buffers of internal/tether/store.go.
use aegisvm.Base.{
  ℕ, ◌+◌, List, [], ◌∷◌, ◌++◌, String, Bool, true, false, ◌≡◌, refl, ap, ◌∙◌, sym, arith,
  if◌then◌else◌, ◌=s◌, lookup, lookup-insert, last, Bool-cases, inl, inr, =s_iff, ap₂,
}
use aegisvm.Tether.{
  Frame, RingBuffer, new_ring_buffer, contents, append, broadcast_only, subscribe, store, announce,
  write,
}
use aegisvm.Tether.Order.{
  IsOrdered, append_refines, broadcast_only-IsOrdered, stamped, Rising-raise,
}
use aegisvm.Tether.Restart.{last-last, new_ring_buffer-IsOrdered}
use aegisvm.Window.{window}
use aegisvm.Tether.Store.{
  new_store, Saved, Store, default_ring_size, is_transient_frame, get_or_create, put, append_to,
  next_seq, subscribe_to,
}

-- The frames that were persisted for an instance, oldest first.
abbrev pub frames_of : String → List Saved → List Frame
frames_of id [] = []
frames_of id (p ∷ ps) = if p.instance_id =s id then p.frame ∷ frames_of id ps else frames_of id ps

frames_of-append :
    (id : String) (ps : List Saved) (p : Saved)
    → frames_of id (ps ++ (p ∷ []))
      ≡ (if p.instance_id =s id then frames_of id ps ++ (p.frame ∷ []) else frames_of id ps)
frames_of-append id [] p = refl
frames_of-append id (q ∷ ps) p = ground (arith, frames_of-append id ps p)

-- A ring in order that holds the last of the frames that were persisted.
pub record Reflects (r : RingBuffer) (log : List Frame) : Type 0 where
  pub kept : contents r ≡ last r.cap log
  pub ordered : IsOrdered r

cap-append : (f : Frame) (r : RingBuffer) → (append f r).0.cap ≡ r.cap
unfolding append store announce write
cap-append f r = refl

append-Reflects :
    (f : Frame) (r : RingBuffer) (log : List Frame)
    → Reflects r log
    → Reflects (append f r).0 (log ++ (record f { seq = (append f r).1 } ∷ []))
append-Reflects f r log v =
    let (c, n, _, o) = append_refines f r v.ordered in
    record {
      kept =
          c
          ∙ ap (λ xs. last r.cap (xs ++ (stamped r f ∷ []))) v.kept
          ∙ last-last r.cap log (stamped r f ∷ [])
          ∙ ap₂ (λ k m. last k (log ++ (record f { seq = m } ∷ []))) (sym (cap-append f r)) (sym n);
      ordered = o;
    }

broadcast_only-Reflects :
    (f : Frame) (r : RingBuffer) (log : List Frame)
    → Reflects r log
    → Reflects (broadcast_only f r).0 log
unfolding broadcast_only announce
broadcast_only-Reflects f r log v = record {
  kept = v.kept;
  ordered = (broadcast_only-IsOrdered f r v.ordered).1;
}

bumped-Reflects :
    (r : RingBuffer) (log : List Frame)
    → Reflects r log
    → Reflects (record r { seq_counter = r.seq_counter + 1 }) log
bumped-Reflects r log v = record {
  kept = v.kept;
  ordered = record {
    valid = record {
      roomy = v.ordered.valid.roomy;
      sized = v.ordered.valid.sized;
      placed = v.ordered.valid.placed;
      filled = v.ordered.valid.filled;
    };
    rising = Rising-raise 0 r.seq_counter (contents r) v.ordered.rising;
  };
}

subscribe-Reflects :
    (n : ℕ) (r : RingBuffer) (log : List Frame) → Reflects r log → Reflects (subscribe n r) log
unfolding subscribe
subscribe-Reflects n r log v = record {
  kept = v.kept;
  ordered = record {
    valid = record {
      roomy = v.ordered.valid.roomy;
      sized = v.ordered.valid.sized;
      placed = v.ordered.valid.placed;
      filled = v.ordered.valid.filled;
    };
    rising = v.ordered.rising;
  };
}

new_contents : contents (new_ring_buffer default_ring_size) ≡ []
unfolding new_ring_buffer window
new_contents = refl

-- The ring of an instance holds the last of the frames that were persisted for it.
abbrev pub Mirrors : String → Store → Type 0
Mirrors j s = Reflects (get_or_create j s) (frames_of j s.persisted)

module _ (id j : String) (s : Store) where
  put-Reflects :
      (r : RingBuffer) (log : List Frame)
      → ((id =s j) ≡ true → Reflects r log)
      → ((id =s j) ≡ false → Reflects (get_or_create j s) log)
      → Reflects (get_or_create j (put id r s)) log
  put-Reflects r log same other = elim (Bool-cases (id =s j)) [
    | inl h ↦ rw (lookup-insert id j r s.buffers, h) (same h)
    | inr h ↦ rw (lookup-insert id j r s.buffers, h) (other h)
  ]

  same_ring : (id =s j) ≡ true → get_or_create id s ≡ get_or_create j s
  same_ring h = ap (λ k. get_or_create k s) ((=s_iff id j).0 h)

  append_to-Mirrors :
      (encodes : Frame → Bool) (f : Frame)
      → ((g : Frame) → encodes g ≡ true)
      → s.has_persist ≡ true
      → Mirrors j s
      → Mirrors j (append_to encodes id f s).0
  unfolding append_to
  append_to-Mirrors encodes f e p v = elim (Bool-cases (is_transient_frame f.type)) [
    | inl t ↦ rw t (
        put-Reflects (broadcast_only f (get_or_create id s)).0 (frames_of j s.persisted)
          (λ h. rw (same_ring h) (broadcast_only-Reflects f (get_or_create j s) _ v)) (λ _. v))
    | inr t ↦
        let r = get_or_create id s in
        let n = (append f r).1 in
        let saved : Saved = record { instance_id = id; seq = n; frame = record f { seq = n } } in
        rw (t, p, e (record f { seq = n }), frames_of-append j s.persisted saved)
          (put-Reflects (append f r).0 _
            (λ h. rw h (rw (same_ring h) (append-Reflects f (get_or_create j s) _ v)))
            (λ h. rw h v))
  ]

  next_seq-Mirrors : Mirrors j s → Mirrors j (next_seq id s).0
  unfolding next_seq
  next_seq-Mirrors v =
      put-Reflects _ _ (λ h. rw (same_ring h) (bumped-Reflects (get_or_create j s) _ v)) (λ _. v)

  subscribe_to-Mirrors : (n : ℕ) → Mirrors j s → Mirrors j (subscribe_to id n s)
  unfolding subscribe_to
  subscribe_to-Mirrors n v =
      put-Reflects _ _ (λ h. rw (same_ring h) (subscribe-Reflects n (get_or_create j s) _ v))
        (λ _. v)

-- The calls that change the store, but for `Remove` and `Load`.
pub data Call : Type 0 where
  appends : String → Frame → Call
  bumps : String → Call
  subscribes : String → ℕ → Call

unfoldable pub call : (Frame → Bool) → Call → Store → Store
call encodes (appends id f) s = (append_to encodes id f s).0
call encodes (bumps id) s = (next_seq id s).0
call encodes (subscribes id n) s = subscribe_to id n s

unfoldable pub calls : (Frame → Bool) → List Call → Store → Store
unfolding call
calls encodes [] s = s
calls encodes (c ∷ cs) s = calls encodes cs (call encodes c s)

call-persists :
    (encodes : Frame → Bool) (c : Call) (s : Store) → (call encodes c s).has_persist ≡ s.has_persist
unfolding call append_to next_seq subscribe_to
call-persists encodes (appends id f) s = ground arith
call-persists encodes (bumps id) s = refl
call-persists encodes (subscribes id n) s = refl

call-Mirrors :
    (encodes : Frame → Bool) (c : Call) (s : Store) (j : String)
    → ((g : Frame) → encodes g ≡ true)
    → s.has_persist ≡ true
    → Mirrors j s
    → Mirrors j (call encodes c s)
unfolding call
call-Mirrors encodes (appends id f) s j e p v = append_to-Mirrors id j s encodes f e p v
call-Mirrors encodes (bumps id) s j e p v = next_seq-Mirrors id j s v
call-Mirrors encodes (subscribes id n) s j e p v = subscribe_to-Mirrors id j s n v

-- With a persist callback, and where every frame can be written, a store whose ring for an instance
-- holds the last of the frames that were persisted for it, in order, is one again after any calls of
-- `Append`, `NextSeq` and `Subscribe` for this or other instances.
pub calls-Mirrors :
    (encodes : Frame → Bool) (cs : List Call) (s : Store) (j : String)
    → ((g : Frame) → encodes g ≡ true)
    → s.has_persist ≡ true
    → Mirrors j s
    → Mirrors j (calls encodes cs s)
unfolding calls
calls-Mirrors encodes [] s j e p v = v
calls-Mirrors encodes (c ∷ cs) s j e p v =
    calls-Mirrors encodes cs (call encodes c s) j e (call-persists encodes c s ∙ p)
      (call-Mirrors encodes c s j e p v)

pub new_store-Mirrors : (j : String) → Mirrors j (new_store true)
unfolding lookup
new_store-Mirrors j = record {
  kept = new_contents ∙ sym (unfold new_ring_buffer in refl);
  ordered = new_ring_buffer-IsOrdered default_ring_size (omega arith);
}
