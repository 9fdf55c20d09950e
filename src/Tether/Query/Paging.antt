-- ===== src/Tether/Query/Paging.antt =====
-- Reading the ring buffer of internal/tether/store.go page by page.
use aegisvm.Base.{
  ◌⊎◌, ℕ, zero, suc, ◌+◌, ◌≤◌, ◌<◌, ◌≡◌, refl, ap, ◌∙◌, List, [], ◌∷◌, ◌++◌, true, false, take,
  select, arith, sym, ltb, if◌then◌else◌, Bool-cases, inl, inr,
}
use aegisvm.Tether.{Frame, RingBuffer, contents}
use aegisvm.Tether.Contents.{Rising}
use aegisvm.Tether.Order.{IsOrdered}
use aegisvm.Tether.Query.{
  QueryOpts, matches_filters, effective_limit, is_after, found, scan_forward, query,
}

abbrev raised : ℕ → Frame → ℕ
raised max_seq f = if ltb max_seq f.seq then f.seq else max_seq

-- A forward scan returns the first `limit` of the frames that are wanted.
pub scan_forward-take :
    (o : QueryOpts) (limit max_seq : ℕ) (fs : List Frame)
    → (scan_forward o limit max_seq fs).0 ≡ take limit (select (is_after o o.after_seq) fs)
unfolding scan_forward
scan_forward-take o zero max_seq [] = refl
scan_forward-take o (suc limit) max_seq [] = refl
scan_forward-take o zero max_seq (f ∷ fs) = refl
scan_forward-take o (suc limit) max_seq (f ∷ fs) = elim (Bool-cases (is_after o o.after_seq f)) [
  | inl h ↦ rw h (ap (◌∷◌ f) (scan_forward-take o limit (raised max_seq f) fs))
  | inr h ↦ rw h (scan_forward-take o (suc limit) max_seq fs)
]

-- `max_seq` only rises.
scan_forward-le :
    (o : QueryOpts) (limit max_seq : ℕ) (fs : List Frame)
    → max_seq ≤ (scan_forward o limit max_seq fs).1
unfolding scan_forward
scan_forward-le o zero max_seq [] = omega arith
scan_forward-le o (suc limit) max_seq [] = omega arith
scan_forward-le o zero max_seq (f ∷ fs) = omega arith
scan_forward-le o (suc limit) max_seq (f ∷ fs) = ground (
  arith,
  scan_forward-le o limit f.seq fs,
  scan_forward-le o limit max_seq fs,
  scan_forward-le o (suc limit) max_seq fs,
)

-- In a rising list that starts beyond both marks, they admit the same frames.
same_beyond :
    (o : QueryOpts) (a b lo hi : ℕ) (fs : List Frame)
    → Rising lo fs hi
    → a ≤ lo
    → b ≤ lo
    → select (is_after o a) fs ≡ select (is_after o b) fs
unfolding is_after
same_beyond o a b lo hi [] r p q = refl
same_beyond o a b lo hi (f ∷ fs) r p q =
    ground (arith, same_beyond o a b f.seq hi fs r.1 (omega arith) (omega arith))

skipped :
    (o : QueryOpts) (m : ℕ) (f : Frame)
    → is_after o o.after_seq f ≡ false
    → o.after_seq ≤ m
    → is_after o m f ≡ false
unfolding is_after
skipped o m f h p = ground arith

passed : (o : QueryOpts) (m : ℕ) (f : Frame) → f.seq ≤ m → is_after o m f ≡ false
unfolding is_after
passed o m f p = ground arith

wanted-lt : (o : QueryOpts) (f : Frame) → is_after o o.after_seq f ≡ true → o.after_seq < f.seq
unfolding is_after
wanted-lt o f h = ground arith

take-nil : (n : ℕ) → take {A = Frame} n [] ≡ []
take-nil zero = refl
take-nil (suc n) = refl

-- Where a scan stands: at its start, or with its mark below all the frames to come.
abbrev Marked : QueryOpts → ℕ → ℕ → Type 0
Marked o max_seq lo = (max_seq ≡ o.after_seq) ⊎ ((o.after_seq ≤ max_seq) × (max_seq ≤ lo))

same-Marked :
    (o : QueryOpts) (max_seq lo hi : ℕ) (fs : List Frame)
    → Rising lo fs hi
    → Marked o max_seq lo
    → select (is_after o max_seq) fs ≡ select (is_after o o.after_seq) fs
same-Marked o max_seq lo hi fs r (inl e) = ap (λ m. select (is_after o m) fs) e
same-Marked o max_seq lo hi fs r (inr (p, q)) =
    same_beyond o max_seq o.after_seq lo hi fs r q (omega arith)

Marked-next :
    (o : QueryOpts) (max_seq lo : ℕ) (f : Frame)
    → is_after o o.after_seq f ≡ true
    → lo < f.seq
    → Marked o max_seq lo
    → Marked o (raised max_seq f) f.seq
Marked-next o max_seq lo f h p q = ground (arith, wanted-lt o f h)

scan-taken :
    (o : QueryOpts) (limit max_seq : ℕ) (f : Frame) (fs : List Frame)
    → is_after o o.after_seq f ≡ true
    → scan_forward o (suc limit) max_seq (f ∷ fs)
      ≡ found f (scan_forward o limit (raised max_seq f) fs)
unfolding scan_forward
scan-taken o limit max_seq f fs h = rw h

scan-skipped :
    (o : QueryOpts) (limit max_seq : ℕ) (f : Frame) (fs : List Frame)
    → is_after o o.after_seq f ≡ false
    → scan_forward o (suc limit) max_seq (f ∷ fs) ≡ scan_forward o (suc limit) max_seq fs
unfolding scan_forward
scan-skipped o limit max_seq f fs h = rw h

-- The frames of a scan, followed by those that are wanted after the mark it returns.
abbrev continued : QueryOpts → ℕ → List Frame → List Frame × ℕ → List Frame
continued o n fs (ms, m) = ms ++ take n (select (is_after o m) fs)

-- The scan splits the wanted frames: those it returns, and those wanted after the mark it returns.
split :
    (o : QueryOpts) (limit max_seq n lo hi : ℕ) (fs : List Frame)
    → Rising lo fs hi
    → Marked o max_seq lo
    → continued o n fs (scan_forward o limit max_seq fs)
      ≡ take (limit + n) (select (is_after o o.after_seq) fs)
split o zero max_seq n lo hi [] r q = unfold scan_forward in take-nil n ∙ sym (take-nil (0 + n))
split o (suc limit) max_seq n lo hi [] r q =
    unfold scan_forward in take-nil n ∙ sym (take-nil (suc limit + n))
split o zero max_seq n lo hi (f ∷ fs) r q =
    let e : 0 + n ≡ n = omega arith in
    unfold scan_forward in rw e (ap (take n) (same-Marked o max_seq lo hi (f ∷ fs) r q))
split o (suc limit) max_seq n lo hi (f ∷ fs) r q =
    let e : suc limit + n ≡ suc (limit + n) = omega arith in
    elim (Bool-cases (is_after o o.after_seq f)) [
      | inl h ↦
          let m = raised max_seq f in
          let top : f.seq ≤ (scan_forward o limit m fs).1 =
            ground (arith, scan_forward-le o limit m fs) in
          ap (continued o n (f ∷ fs)) (scan-taken o limit max_seq f fs h)
          ∙ rw (h, passed o (scan_forward o limit m fs).1 f top, e)
              (ap (◌∷◌ f) (split o limit m n f.seq hi fs r.1 (Marked-next o max_seq lo f h r.0 q)))
      | inr h ↦
          let top : o.after_seq ≤ (scan_forward o (suc limit) max_seq fs).1 =
            ground (arith, scan_forward-le o (suc limit) max_seq fs) in
          ap (continued o n (f ∷ fs)) (scan-skipped o limit max_seq f fs h)
          ∙ rw (h, skipped o (scan_forward o (suc limit) max_seq fs).1 f h top)
              (split o (suc limit) max_seq n f.seq hi fs r.1 (ground arith))
    ]

-- On a buffer in order, a forward query and a second one from where the first says to go on return
-- together the first frames that pass the filters, as many as both limits: none is missed or repeated.
pub query-pages :
    (o : QueryOpts) (r : RingBuffer) (limit : ℕ)
    → IsOrdered r
    → o.before_seq ≡ 0
    → let first = query o r in
      let second = query (record o { after_seq = first.next_seq; limit = limit }) r in
      first.frames ++ second.frames
      ≡ take
          (effective_limit o.limit + effective_limit limit)
          (select (is_after o o.after_seq) (contents r))
unfolding query is_after matches_filters
query-pages o r limit v b =
    let o' : QueryOpts = record o {
      after_seq = (scan_forward o (effective_limit o.limit) o.after_seq (contents r)).1;
      limit = limit;
    } in
    let top : ltb 0 o.before_seq ≡ false = ground arith in
    rw (top, scan_forward-take o' (effective_limit limit) o'.after_seq (contents r))
      (split o (effective_limit o.limit) o.after_seq (effective_limit limit) 0 r.seq_counter
        (contents r) v.rising (inl refl))
