-- ===== src/Registry/Frames/Order.antt =====
-- Which frames internal/registry/tether.go gives back after a restart.
use aegisvm.Base.{
  ℕ, ◌<◌, ◌≡◌, refl, ap, sym, subst, ◌∙◌, List, [], ◌∷◌, ◌++◌, map, String, true, ◌&&◌, ◌==◌, ◌=s◌,
  =s_iff, if_elim, Bool-cases, inl, inr, All, last, arith,
}
use mathlib.Core.List.{append_assoc, append-nil}
use aegisvm.Registry.Frames.{
  FrameRow, FrameTables, same_row, drop_row, save_tether_frame, insert_row, by_seq, of_instance,
  frame_of, load_tether_frames, save_all,
}

-- The rows of an instance have lower numbers.
abbrev pub Above : FrameRow → List FrameRow → Type 0
Above row rows =
    All (λ (r : FrameRow). (r.instance_id =s row.instance_id) ≡ true → r.seq < row.seq) rows

-- Each row has a number above those of its instance before it.
abbrev pub Rises : List FrameRow → List FrameRow → Type 0
Rises rows [] = Unit
Rises rows (r ∷ rs) = Above r rows × Rises (rows ++ (r ∷ [])) rs

drop_row-Above : (row : FrameRow) (rows : List FrameRow) → Above row rows → drop_row row rows ≡ rows
unfolding drop_row same_row
drop_row-Above row [] a = refl
drop_row-Above row (r ∷ rs) a =
    if_elim (λ xs. xs ≡ r ∷ rs) ((r.instance_id =s row.instance_id) && (r.seq == row.seq)) _ _
      (λ t. absurd (ground (arith, a.0))) (λ t. ap (λ xs. r ∷ xs) (drop_row-Above row rs a.1))

insert_row-snoc :
    (r s : FrameRow) (rs : List FrameRow)
    → r.seq < s.seq
    → insert_row r (rs ++ (s ∷ [])) ≡ insert_row r rs ++ (s ∷ [])
unfolding insert_row
insert_row-snoc r s [] h = ground arith
insert_row-snoc r s (x ∷ rs) h = ground (arith, insert_row-snoc r s rs h)

by_seq-snoc :
    (s : FrameRow) (rs : List FrameRow)
    → All (λ (r : FrameRow). r.seq < s.seq) rs
    → by_seq (rs ++ (s ∷ [])) ≡ by_seq rs ++ (s ∷ [])
unfolding by_seq insert_row
by_seq-snoc s [] a = refl
by_seq-snoc s (r ∷ rs) a =
    ap (insert_row r) (by_seq-snoc s rs a.1) ∙ insert_row-snoc r s (by_seq rs) a.0

of_instance-append :
    (id : String) (xs ys : List FrameRow)
    → of_instance id (xs ++ ys) ≡ of_instance id xs ++ of_instance id ys
of_instance-append id [] ys = refl
of_instance-append id (x ∷ xs) ys = ground (arith, of_instance-append id xs ys)

All-of_instance :
    (row : FrameRow) (rows : List FrameRow)
    → Above row rows
    → All (λ (r : FrameRow). r.seq < row.seq) (of_instance row.instance_id rows)
All-of_instance row [] a = tt
All-of_instance row (r ∷ rs) a =
    if_elim (All (λ (r : FrameRow). r.seq < row.seq)) (r.instance_id =s row.instance_id) _ _
      (λ t. (a.0 t, All-of_instance row rs a.1)) (λ t. All-of_instance row rs a.1)

-- What the query of an instance gives after one more row.
ordered-snoc :
    (id : String) (row : FrameRow) (rows : List FrameRow)
    → Above row rows
    → by_seq (of_instance id (rows ++ (row ∷ [])))
      ≡ by_seq (of_instance id rows) ++ of_instance id (row ∷ [])
ordered-snoc id row rows a = elim (Bool-cases (row.instance_id =s id)) [
  | inl e ↦
      let same : row.instance_id ≡ id = (=s_iff row.instance_id id).0 e in
      rw (e, of_instance-append id rows (row ∷ []), e)
        (by_seq-snoc row (of_instance id rows) (
          subst (λ i. All (λ (r : FrameRow). r.seq < row.seq) (of_instance i rows)) same
            (All-of_instance row rows a)))
  | inr e ↦
      rw (of_instance-append id rows (row ∷ []), e)
        (ap by_seq (append-nil (of_instance id rows))
          ∙ sym (append-nil (by_seq (of_instance id rows))))
]

saved-frames :
    (r : FrameRow) (t : FrameTables)
    → Above r t.frames
    → (save_tether_frame r t).frames ≡ t.frames ++ (r ∷ [])
unfolding save_tether_frame
saved-frames r t a = ap (λ xs. xs ++ (r ∷ [])) (drop_row-Above r t.frames a)

save_all-ordered :
    (id : String) (rs : List FrameRow) (t : FrameTables)
    → Rises t.frames rs
    → by_seq (of_instance id (save_all rs t).frames)
      ≡ by_seq (of_instance id t.frames) ++ of_instance id rs
unfolding save_all
save_all-ordered id [] t h = sym (append-nil _)
save_all-ordered id (r ∷ rs) t h =
    let before = by_seq (of_instance id t.frames) in
    let eq = saved-frames r t h.0 in
    save_all-ordered id rs (save_tether_frame r t) (subst (λ xs. Rises xs rs) (sym eq) h.1)
    ∙ ap (λ xs. by_seq (of_instance id xs) ++ of_instance id rs) eq
    ∙ ap (λ xs. xs ++ of_instance id rs) (ordered-snoc id r t.frames h.0)
    ∙ append_assoc before (of_instance id (r ∷ [])) (of_instance id rs)
    ∙ ap (λ xs. before ++ xs) (sym (of_instance-append id (r ∷ []) rs))

-- When frames are saved in an order in which the numbers of each instance rise, a table that held none
-- gives back for an instance just the last of its frames, as many as the limit, in that order,
-- whatever other instances saved in between.
pub load-save_all :
    (limit : ℕ) (id : String) (rs : List FrameRow) (t : FrameTables)
    → t.frames ≡ []
    → Rises [] rs
    → load_tether_frames limit id (save_all rs t) ≡ last limit (map frame_of (of_instance id rs))
unfolding load_tether_frames by_seq
load-save_all limit id rs t e h =
    ap (λ xs. last limit (map frame_of xs))
      (save_all-ordered id rs t (subst (λ xs. Rises xs rs) (sym e) h)
        ∙ ap (λ xs. by_seq (of_instance id xs) ++ of_instance id rs) e)
