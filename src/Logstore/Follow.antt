-- ===== src/Logstore/Follow.antt =====
-- Following a log of internal/logstore/logstore.go: the entries so far, and then the channel.
use aegisvm.Base.{
  ℕ, ◌+◌, ◌≤◌, ◌<◌, ◌≡◌, refl, ap, sym, ◌∙◌, List, [], ◌∷◌, ◌++◌, map, length, length-append, arith,
}
use mathlib.Core.List.{append_assoc, append-nil, map-append}
use aegisvm.Logstore.{
  LogEntry, FileIo, Subscriber, InstanceLog, contents, append, deliver, subscribe,
}
use aegisvm.Logstore.Refine.{append-subs}

-- A series of calls of `Append`.
unfoldable pub append_all : List (FileIo × LogEntry) → InstanceLog → InstanceLog
append_all [] il = il
append_all ((io, e) ∷ more) il = append_all more (append io e il)

abbrev pub entries_of : List (FileIo × LogEntry) → List LogEntry
entries_of [] = []
entries_of ((io, e) ∷ more) = e ∷ entries_of more

abbrev follower : ℕ → List LogEntry → Subscriber
follower id waiting = record { id = id; waiting = waiting }

-- The log has the follower last, with these entries in its channel.
abbrev pub Follows : ℕ → List LogEntry → InstanceLog → Type 0
Follows id waiting il =
    (others : List Subscriber) × (il.subs ≡ others ++ (follower id waiting ∷ []))

follow_step :
    (io : FileIo) (e : LogEntry) (id : ℕ) (waiting : List LogEntry) (il : InstanceLog)
    → length waiting < 100
    → Follows id waiting il
    → Follows id (waiting ++ (e ∷ [])) (append io e il)
follow_step io e id waiting il room (others, h) = (
  map (deliver e) others,
  append-subs io e il
      ∙ ap (map (deliver e)) h
      ∙ map-append (deliver e) others (follower id waiting ∷ [])
      ∙ ap (λ s. map (deliver e) others ++ (s ∷ [])) sent,
)
  where
    sent : deliver e (follower id waiting) ≡ follower id (waiting ++ (e ∷ []))
    sent = ground arith

follow_all :
    (more : List (FileIo × LogEntry)) (id : ℕ) (waiting : List LogEntry) (il : InstanceLog)
    → length waiting + length (entries_of more) ≤ 100
    → Follows id waiting il
    → Follows id (waiting ++ entries_of more) (append_all more il)
unfolding append_all
follow_all [] id waiting il h f =
    (f.0, f.1 ∙ ap (λ w. f.0 ++ (follower id w ∷ [])) (sym (append-nil waiting)))
follow_all ((io, e) ∷ more) id waiting il h f =
    let (others, g) =
      follow_all more id (waiting ++ (e ∷ [])) (append io e il)
        (omega (arith, length-append waiting (e ∷ [])))
        (follow_step io e id waiting il (omega arith) f) in
    (
      others,
      g
          ∙ ap (λ w. others ++ (follower id w ∷ []))
              (append_assoc waiting (e ∷ []) (entries_of more)),
    )

-- After `Subscribe` and at most 100 calls of `Append`, the entries that it returned are those that the
-- ring held, and the channel holds just the new ones in order, however the ring and the file turn over.
pub append_all-subscribe :
    (id : ℕ) (more : List (FileIo × LogEntry)) (il : InstanceLog)
    → length (entries_of more) ≤ 100
    → let (il', existing) = subscribe id il in
      (existing ≡ contents il) × Follows id (entries_of more) (append_all more il')
unfolding subscribe
append_all-subscribe id more il h =
    (refl, follow_all more id [] (subscribe id il).0 (omega arith) (il.subs, refl))
