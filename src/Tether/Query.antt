-- ===== src/Tether/Query.antt =====
-- internal/tether/store.go: `query`, `recent`, and the filters. A loop over the indices of the ring is
-- a recursion on `contents`, which lists the entries by the same indices.
pub mod Paging
use aegisvm.Base.{
  ℕ, zero, suc, ◌-◌, List, [], ◌∷◌, ◌++◌, reverse, String, Bool, true, false, not, ◌&&◌, ◌||◌, ltb,
  leb, ◌==◌, if◌then◌else◌, ◌=s◌, length, drop,
}
use aegisvm.Tether.{Frame, RingBuffer, contents}

pub record QueryOpts : Type 0 where
  pub channel : String
  pub session : String
  pub after_seq : ℕ
  pub before_seq : ℕ
  pub types : List String
  pub reply_to_msg_id : String
  pub limit : ℕ

pub record QueryResult : Type 0 where
  pub frames : List Frame
  pub next_seq : ℕ
  pub timed_out : Bool

unfoldable pub contains : String → List String → Bool
contains t [] = false
contains t (x ∷ xs) = if x =s t then true else contains t xs

abbrev is_empty : List String → Bool
is_empty [] = true
is_empty (_ ∷ _) = false

unfoldable pub matches_filters : QueryOpts → Frame → Bool
unfolding contains
matches_filters o f =
    if not (o.channel =s "") && not (f.channel =s o.channel)
    then false
    else if not (o.session =s "") && not (f.session =s o.session)
    then false
    else if not (is_empty o.types) && not (contains f.type o.types)
    then false
    else if not (o.reply_to_msg_id =s "") && not (f.msg_id =s o.reply_to_msg_id)
    then false
    else true

-- 0 is the default of 50; no more than 200.
unfoldable pub effective_limit : ℕ → ℕ
effective_limit n = let limit = if n == 0 then 50 else n in if ltb 200 limit then 200 else limit

-- The frames that a forward scan may return.
unfoldable pub is_after : QueryOpts → ℕ → Frame → Bool
is_after o after f = ltb after f.seq && matches_filters o f

abbrev pub found : Frame → List Frame × ℕ → List Frame × ℕ
found f (ms, m) = (f ∷ ms, m)

-- The forward loop: `limit` results are still wanted, and `max_seq` is the largest seq returned.
unfoldable pub scan_forward : QueryOpts → ℕ → ℕ → List Frame → List Frame × ℕ
scan_forward o limit max_seq [] = ([], max_seq)
scan_forward o zero max_seq (f ∷ fs) = ([], max_seq)
scan_forward o (suc limit) max_seq (f ∷ fs) =
    let taken = found f (scan_forward o limit (if ltb max_seq f.seq then f.seq else max_seq) fs) in
    let skipped = scan_forward o (suc limit) max_seq fs in
    if is_after o o.after_seq f then taken else skipped

unfoldable pub is_before : QueryOpts → Frame → Bool
is_before o f = ltb f.seq o.before_seq && matches_filters o f

-- The reverse loop, over the newest frames first.
unfoldable pub scan_reverse : QueryOpts → ℕ → ℕ → List Frame → List Frame × ℕ
scan_reverse o limit min_seq [] = ([], min_seq)
scan_reverse o zero min_seq (f ∷ fs) = ([], min_seq)
scan_reverse o (suc limit) min_seq (f ∷ fs) =
    let taken = found f (scan_reverse o limit (if ltb f.seq min_seq then f.seq else min_seq) fs) in
    let skipped = scan_reverse o (suc limit) min_seq fs in if is_before o f then taken else skipped

unfoldable pub query : QueryOpts → RingBuffer → QueryResult
query o r =
    let back = scan_reverse o (effective_limit o.limit) o.before_seq (reverse (contents r)) in
    let ahead = scan_forward o (effective_limit o.limit) o.after_seq (contents r) in
    if ltb 0 o.before_seq
    then record { frames = reverse back.0; next_seq = back.1; timed_out = false }
    else record { frames = ahead.0; next_seq = ahead.1; timed_out = false }

-- The last `n` frames; all of them for 0.
unfoldable pub recent : ℕ → RingBuffer → List Frame
recent n r =
    let wanted = if n == 0 || ltb r.count n then r.count else n in
    drop (r.count - wanted) (contents r)

-- What wakes a long poll: the context's end, the deadline, or a new frame with the ring it left.
pub data Wake : Type 0 where
  cancelled deadline : Wake
  woke : RingBuffer → Wake

abbrev timed_out : QueryOpts → QueryResult
timed_out o = record { frames = []; next_seq = o.after_seq; timed_out = true }

abbrev any_frame : QueryResult → Bool
any_frame q = elim q.frames [ [] ↦ false | _ ∷ _ ↦ true ]

-- The loop of `WaitForFrames`; the list ends where the poll still waits.
poll : QueryOpts → List Wake → List QueryResult
poll o [] = []
poll o (cancelled ∷ ws) = timed_out o ∷ []
poll o (deadline ∷ ws) = timed_out o ∷ []
poll o (woke r ∷ ws) =
    let rest = poll o ws in if any_frame (query o r) then query o r ∷ [] else rest

-- `WaitForFrames`: at most one result, none while it waits.
unfoldable pub wait_for_frames : QueryOpts → Bool → RingBuffer → List Wake → List QueryResult
unfolding poll
wait_for_frames o has_timeout r ws =
    if any_frame (query o r) || not has_timeout then query o r ∷ [] else poll o ws
