-- ===== src/Tether/Restart.antt =====
-- `Load` of internal/tether/store.go: the ring buffer after a restart of the daemon.
use aegisvm.Base.{
  ℕ, zero, suc, ◌+◌, ◌-◌, ◌≤◌, ◌<◌, ◌≡◌, refl, ap, ap₂, ◌∙◌, sym, List, [], ◌∷◌, ◌++◌, length,
  length-append, drop, last, arith, ltb, if◌then◌else◌, subst,
}
use mathlib.Core.List.{append-nil, append_assoc}
use aegisvm.Window.{window, length-window}
use aegisvm.Tether.{
  Frame, zero_frame, RingBuffer, new_ring_buffer, contents, write, load, append, broadcast_only,
  assign_seq, store, announce,
}
use aegisvm.Tether.Contents.{
  Rising, IsValid, write-IsValid, contents-write, new_ring_buffer-IsValid,
}
use aegisvm.Tether.Order.{IsOrdered, write-Rising}

drop-nil : (n : ℕ) → drop {A = Frame} n [] ≡ []
drop-nil zero = refl
drop-nil (suc n) = refl

drop-drop : (a b : ℕ) (xs : List Frame) → drop a (drop b xs) ≡ drop (b + a) xs
drop-drop a zero xs = let e : 0 + a ≡ a = omega arith in rw e
drop-drop a (suc b) [] = drop-nil a ∙ sym (drop-nil (suc b + a))
drop-drop a (suc b) (x ∷ xs) =
    let e : suc b + a ≡ suc (b + a) = omega arith in rw e (drop-drop a b xs)

drop-append : (n : ℕ) (xs ys : List Frame) → n ≤ length xs → drop n xs ++ ys ≡ drop n (xs ++ ys)
drop-append zero xs ys h = refl
drop-append (suc n) [] ys h = absurd (omega arith)
drop-append (suc n) (x ∷ xs) ys h = drop-append n xs ys (omega arith)

length-drop : (n : ℕ) (xs : List Frame) → length (drop n xs) ≡ length xs - n
length-drop zero xs = omega arith
length-drop (suc n) [] = omega arith
length-drop (suc n) (x ∷ xs) = omega (arith, length-drop n xs)

-- Forgetting early is forgetting late.
pub last-last : (n : ℕ) (xs ys : List Frame) → last n (last n xs ++ ys) ≡ last n (xs ++ ys)
last-last n xs ys =
    let k = length xs - n in
    ap (λ m. drop (m - n) (drop k xs ++ ys)) (length-append (drop k xs) ys)
    ∙ ap (drop (length (drop k xs) + length ys - n)) (drop-append k xs ys (omega arith))
    ∙ drop-drop (length (drop k xs) + length ys - n) k (xs ++ ys)
    ∙ ap (λ m. drop m (xs ++ ys)) (omega (arith, length-drop k xs, length-append xs ys))

abbrev loaded : Frame → RingBuffer → RingBuffer
loaded f r = record (write f r) {
  seq_counter = if ltb r.seq_counter f.seq then f.seq else r.seq_counter;
}

all_kept : (r : RingBuffer) → IsValid r → last r.cap (contents r) ≡ contents r
all_kept r v =
    let e : length (contents r) - r.cap ≡ 0 =
      omega (arith, length-window r.cap zero_frame r.frames r.head 0 r.count, v.filled) in
    ap (λ n. drop n (contents r)) e

cap-write : (f : Frame) (r : RingBuffer) → (write f r).cap ≡ r.cap
unfolding write
cap-write f r = refl

loaded-IsOrdered :
    (f : Frame) (r : RingBuffer) → IsOrdered r → r.seq_counter < f.seq → IsOrdered (loaded f r)
loaded-IsOrdered f r o h =
    let v = write-IsValid f r o.valid in
    let up : (loaded f r).seq_counter ≡ f.seq = ground arith in
    record {
      valid = record { roomy = v.roomy; sized = v.sized; placed = v.placed; filled = v.filled };
      rising = subst (Rising 0 (contents (write f r))) (sym up) (write-Rising f r o h);
    }

-- Loading frames that go on where a buffer in order stands leaves it in order, with the last `cap`
-- of its frames and theirs, and with a counter within the bound on their numbers.
pub load_refines :
    (fs : List Frame) (r : RingBuffer) (hi : ℕ)
    → IsOrdered r
    → Rising r.seq_counter fs hi
    → (contents (load fs r) ≡ last r.cap (contents r ++ fs))
      × IsOrdered (load fs r)
      × ((load fs r).seq_counter ≤ hi)
      × ((load fs r).cap ≡ r.cap)
unfolding load
load_refines [] r hi o h =
    (sym (ap (last r.cap) (append-nil (contents r)) ∙ all_kept r o.valid), o, h, refl)
load_refines (f ∷ fs) r hi o h =
    let j : IsOrdered (loaded f r) = loaded-IsOrdered f r o h.0 in
    let up : (loaded f r).seq_counter ≡ f.seq = ground arith in
    let (c, o', b, e) =
      load_refines fs (loaded f r) hi j (subst (λ n. Rising n fs hi) (sym up) h.1) in
    (
      c
          ∙ ap₂ (λ n xs. last n (xs ++ fs)) (cap-write f r) (contents-write f r o.valid)
          ∙ last-last r.cap (contents r ++ (f ∷ [])) fs
          ∙ ap (last r.cap) (append_assoc (contents r) (f ∷ []) fs),
      o',
      b,
      e ∙ cap-write f r,
    )

pub new_ring_buffer-IsOrdered : (n : ℕ) → 0 < n → IsOrdered (new_ring_buffer n)
unfolding new_ring_buffer window
new_ring_buffer-IsOrdered n h = record { valid = new_ring_buffer-IsValid n h; rising = omega arith }

-- Loading the stored frames of a buffer in order into a new one of the same capacity, as the daemon
-- does when it starts again, gives back the same frames in a buffer in order.
pub load-contents :
    (r : RingBuffer)
    → IsOrdered r
    → let s = load (contents r) (new_ring_buffer r.cap) in
      (contents s ≡ contents r) × IsOrdered s × (s.seq_counter ≤ r.seq_counter)
unfolding new_ring_buffer window
load-contents r o =
    let (c, i, b, _) =
      load_refines (contents r) (new_ring_buffer r.cap) r.seq_counter
        (new_ring_buffer-IsOrdered r.cap o.valid.roomy) o.rising in
    (c ∙ all_kept r o.valid, i, b)

-- The numbers of transient frames are lost in a restart: after a transient frame on a buffer in order
-- and a restart from the stored frames, the next frame has a number that is not above the one that
-- the transient frame had.
pub append-load :
    (f g : Frame) (r : RingBuffer)
    → IsOrdered r
    → let (s, seq) = broadcast_only f r in
      (append g (load (contents s) (new_ring_buffer r.cap))).1 ≤ seq
unfolding broadcast_only announce append store write assign_seq
append-load f g r o = let (_, _, b) = load-contents r o in omega arith
