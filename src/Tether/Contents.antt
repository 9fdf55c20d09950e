-- ===== src/Tether/Contents.antt =====
-- The ring buffer of internal/tether/store.go against the list of its last `cap` frames.
use aegisvm.Base.{
  ap₂, sym, Bool-cases, inl, inr, ℕ, suc, ◌+◌, ◌-◌, ◌%◌, ◌≤◌, ◌<◌, ◌≡◌, ap, ◌∙◌, List, [], ◌∷◌,
  ◌++◌, leb, length, length-append, length-set, length-replicate, drop, last, arith, set,
}
use native.Mathlib.Nat.{mod-lt}
use aegisvm.Window.{window, length-window, window-write, window-rotate}
use aegisvm.Tether.{Frame, zero_frame, RingBuffer, new_ring_buffer, contents, write}

-- The seqs rise along the list, stay above `lo`, and end at `hi` at most.
abbrev pub Rising : ℕ → List Frame → ℕ → Type 0
Rising lo [] hi = lo ≤ hi
Rising lo (f ∷ fs) hi = (lo < f.seq) × Rising f.seq fs hi

pub record IsValid (r : RingBuffer) : Type 0 where
  pub roomy : 0 < r.cap
  pub sized : length r.frames ≡ r.cap
  pub placed : r.head < r.cap
  pub filled : r.count ≤ r.cap

pub new_ring_buffer-IsValid : (n : ℕ) → 0 < n → IsValid (new_ring_buffer n)
unfolding new_ring_buffer
new_ring_buffer-IsValid n h = record {
  roomy = h;
  sized = length-replicate n zero_frame;
  placed = h;
  filled = omega arith;
}

pub write-IsValid : (f : Frame) (r : RingBuffer) → IsValid r → IsValid (write f r)
unfolding write
write-IsValid f r v = ground (
  arith,
  mod-lt (r.head + 1) {m = r.cap},
  length-set r.frames ((r.head + (r.count + 1 - 1)) % r.cap) f,
  length-set r.frames (((r.head + 1) % r.cap + (r.count - 1)) % r.cap) f,
)

-- The list that a bounded log of the last `cap` frames holds after one more.
abbrev pub remember : ℕ → List Frame → Frame → List Frame
remember cap fs f = last cap (fs ++ (f ∷ []))

remember_room :
    (n : ℕ) (fs : List Frame) (f : Frame) → length fs < n → remember n fs f ≡ fs ++ (f ∷ [])
remember_room n fs f h =
    let e : length (fs ++ (f ∷ [])) - n ≡ 0 = omega (arith, length-append fs (f ∷ [])) in rw e

remember_full :
    (n : ℕ) (fs : List Frame) (f : Frame)
    → length fs ≡ n
    → 0 < n
    → remember n fs f ≡ drop 1 fs ++ (f ∷ [])
remember_full n [] f h p = absurd (omega arith)
remember_full n (g ∷ fs) f h p =
    let e : length ((g ∷ fs) ++ (f ∷ [])) - n ≡ 1 = omega (arith, length-append fs (f ∷ [])) in rw e

contents-write_room :
    (f : Frame) (r : RingBuffer)
    → IsValid r
    → r.count < r.cap
    → window r.cap zero_frame
        (set r.frames ((r.head + (r.count + 1 - 1)) % r.cap) f)
        r.head
        0
        (r.count + 1)
      ≡ remember r.cap (contents r) f
contents-write_room f r v h =
    ap₂ (λ k n. window r.cap zero_frame (set r.frames ((r.head + k) % r.cap) f) r.head 0 n)
      (omega arith) (omega arith)
    ∙ window-write r.cap zero_frame r.frames f r.head r.count (omega arith) v.placed h
    ∙ sym (
        remember_room r.cap (contents r) f
          (omega (arith, length-window r.cap zero_frame r.frames r.head 0 r.count)))

contents-write_full :
    (f : Frame) (r : RingBuffer)
    → IsValid r
    → r.cap ≤ r.count
    → window r.cap zero_frame
        (set r.frames (((r.head + 1) % r.cap + (r.count - 1)) % r.cap) f)
        ((r.head + 1) % r.cap)
        0
        r.count
      ≡ remember r.cap (contents r) f
contents-write_full f r v h =
    ap
      (λ n.
        window r.cap zero_frame (set r.frames (((r.head + 1) % r.cap + (r.count - 1)) % r.cap) f)
          ((r.head + 1) % r.cap) 0 n)
      more
    ∙ window-rotate r.cap zero_frame r.frames f r.head (r.count - 1) (omega arith) v.placed
        (omega arith)
    ∙ ap (λ n. drop 1 (window r.cap zero_frame r.frames r.head 0 n) ++ (f ∷ [])) (sym more)
    ∙ sym (
        remember_full r.cap (contents r) f
          (omega (arith, length-window r.cap zero_frame r.frames r.head 0 r.count)) v.roomy)
  where
    more : r.count ≡ suc (r.count - 1)
    more = omega arith

-- Writing a frame is adding it to the list of the last `cap` frames.
pub contents-write :
    (f : Frame) (r : RingBuffer) → IsValid r → contents (write f r) ≡ remember r.cap (contents r) f
unfolding write
contents-write f r v = elim (Bool-cases (leb r.cap r.count)) [
  | inl full ↦ rw full (contents-write_full f r v (ground arith))
  | inr room ↦ rw room (contents-write_room f r v (ground arith))
]
