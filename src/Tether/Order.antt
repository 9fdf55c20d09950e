-- ===== src/Tether/Order.antt =====
-- Sequence numbers in the ring buffer of internal/tether/store.go.
use aegisvm.Base.{
  ℕ, zero, suc, ◌+◌, ◌≤◌, ◌<◌, ◌≡◌, refl, ap, ◌∙◌, List, [], ◌∷◌, ◌++◌, drop, arith, sym, subst,
}
use aegisvm.Tether.{
  Frame, RingBuffer, contents, assign_seq, write, announce, store, append, broadcast_only,
}
use aegisvm.Tether.Contents.{Rising, IsValid, write-IsValid, remember, contents-write}

Rising-weaken : (lo lo' hi : ℕ) (fs : List Frame) → lo' ≤ lo → Rising lo fs hi → Rising lo' fs hi
Rising-weaken lo lo' hi [] h r = omega arith
Rising-weaken lo lo' hi (f ∷ fs) h r = (omega arith, r.1)

Rising-drop : (n lo hi : ℕ) (fs : List Frame) → Rising lo fs hi → Rising lo (drop n fs) hi
Rising-drop zero lo hi fs r = r
Rising-drop (suc n) lo hi [] r = r
Rising-drop (suc n) lo hi (f ∷ fs) r =
    Rising-weaken f.seq lo hi (drop n fs) (omega arith) (Rising-drop n f.seq hi fs r.1)

Rising-snoc :
    (lo hi : ℕ) (fs : List Frame) (f : Frame)
    → Rising lo fs hi
    → hi < f.seq
    → Rising lo (fs ++ (f ∷ [])) f.seq
Rising-snoc lo hi [] f r h = (omega arith, omega arith)
Rising-snoc lo hi (g ∷ fs) f r h = (r.0, Rising-snoc g.seq hi fs f r.1 h)

pub Rising-raise : (lo hi : ℕ) (fs : List Frame) → Rising lo fs hi → Rising lo fs (hi + 1)
Rising-raise lo hi [] r = omega arith
Rising-raise lo hi (f ∷ fs) r = (r.0, Rising-raise f.seq hi fs r.1)

-- A buffer in order: its frames have rising seqs, none beyond the counter.
pub record IsOrdered (r : RingBuffer) : Type 0 where
  pub valid : IsValid r
  pub rising : Rising 0 (contents r) r.seq_counter

pub write-Rising :
    (f : Frame) (r : RingBuffer)
    → IsOrdered r
    → r.seq_counter < f.seq
    → Rising 0 (contents (write f r)) f.seq
write-Rising f r o h =
    subst (λ fs. Rising 0 fs f.seq) (sym (contents-write f r o.valid))
      (Rising-drop _ 0 f.seq (contents r ++ (f ∷ []))
        (Rising-snoc 0 r.seq_counter (contents r) f o.rising h))

abbrev pub stamped : RingBuffer → Frame → Frame
stamped r f = record f { seq = r.seq_counter + 1 }

-- On a buffer in order, `append` gives the frame the next sequence number and returns it, the stored
-- frames are the last `cap` of those before and the frame, and the buffer stays in order.
pub append_refines :
    (f : Frame) (r : RingBuffer)
    → IsOrdered r
    → let (r', seq) = append f r in
      (contents r' ≡ remember r.cap (contents r) (stamped r f))
      × (seq ≡ r.seq_counter + 1)
      × (r'.seq_counter ≡ seq)
      × IsOrdered r'
unfolding append store announce write
append_refines f r o = (
  contents-write (stamped r f) r o.valid,
  refl,
  refl,
  record {
    valid = unsealed (write-IsValid (stamped r f) r o.valid);
    rising = write-Rising (stamped r f) r o (omega arith);
  },
)
  where
    unsealed : IsValid (write (stamped r f) r) → IsValid (append f r).0
    unsealed v = record { roomy = v.roomy; sized = v.sized; placed = v.placed; filled = v.filled }

-- On a buffer in order, `broadcastOnly` leaves the stored frames alone and the buffer in order.
pub broadcast_only-IsOrdered :
    (f : Frame) (r : RingBuffer)
    → IsOrdered r
    → (contents (broadcast_only f r).0 ≡ contents r) × IsOrdered (broadcast_only f r).0
unfolding broadcast_only announce
broadcast_only-IsOrdered f r o = (
  refl,
  record {
    valid = record {
      roomy = o.valid.roomy;
      sized = o.valid.sized;
      placed = o.valid.placed;
      filled = o.valid.filled;
    };
    rising = Rising-raise 0 r.seq_counter (contents r) o.rising;
  },
)

-- Two appends to a buffer in order that take their numbers in one order and store in the other leave
-- the frame with the later number before the one with the earlier.
pub contents-store_swapped :
    (f g : Frame) (r : RingBuffer)
    → IsOrdered r
    → let (r1, f') = assign_seq r f in
      let (r2, g') = assign_seq r1 g in
      contents (store f' (store g' r2)) ≡ remember r.cap (remember r.cap (contents r) g') f'
unfolding assign_seq store announce write
contents-store_swapped f g r o =
    let f' : Frame = record f { seq = r.seq_counter + 1 } in
    let g' : Frame = record g { seq = r.seq_counter + 1 + 1 } in
    contents-write f' (write g' r) (write-IsValid g' r o.valid)
    ∙ ap (λ fs. remember r.cap fs f') (contents-write g' r o.valid)
