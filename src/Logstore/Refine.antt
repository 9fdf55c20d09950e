-- ===== src/Logstore/Refine.antt =====
-- `Append` of internal/logstore/logstore.go against a bounded list of entries.
use aegisvm.Base.{
  ℕ, zero, suc, ◌+◌, ◌≤◌, ◌≡◌, refl, ap, sym, ◌∙◌, List, [], ◌∷◌, ◌++◌, map, Option, none, some,
  String, ◌⊎◌, inl, inr, length, drop, arith, length-replicate,
}
use aegisvm.Window.{window, length-window}
use aegisvm.Logstore.{
  LogEntry, zero_entry, Handle, absent, open_file, closed_file, FileIo, InstanceLog, contents,
  max_lines, max_bytes, entry_size, evict_bytes, evict_oldest, evict_line, add_entry, write_bytes,
  write_file, append, deliver, new_instance_log,
}
use aegisvm.Logstore.Eviction.{
  total_size, IsValid, fit_bytes, fit_line, evict_bytes-Made, evict_line-Made, add_entry-Made,
}

-- What a write to the file leaves alone.
record SameRing (a b : InstanceLog) : Type 0 where
  pub entries : b.entries ≡ a.entries
  pub head : b.head ≡ a.head
  pub count : b.count ≡ a.count
  pub total : b.total_bytes ≡ a.total_bytes
  pub subs : b.subs ≡ a.subs

write_bytes-SameRing :
    (io : FileIo) (e : LogEntry) (il : InstanceLog) (o : Option ℕ)
    → SameRing il (write_bytes io e il o)
unfolding write_bytes
write_bytes-SameRing io e il none = ground arith
write_bytes-SameRing io e il (some n) = ground arith

write_file-SameRing :
    (io : FileIo) (e : LogEntry) (il : InstanceLog) (h : Handle)
    → SameRing il (write_file io e il h)
unfolding write_file
write_file-SameRing io e il absent = ground arith
write_file-SameRing io e il open_file = write_bytes-SameRing io e il io.wrote
write_file-SameRing io e il closed_file = ground arith

same_contents : (a b : InstanceLog) → SameRing a b → contents b ≡ contents a
same_contents a b s = rw (s.entries, s.head, s.count) refl

same-IsValid : (a b : InstanceLog) → SameRing a b → IsValid a → IsValid b
same-IsValid a b s v = record {
  sized = ap length s.entries ∙ v.sized;
  placed = omega (arith, s.head, v.placed);
  filled = omega (arith, s.count, v.filled);
  counted = s.total ∙ v.counted ∙ ap total_size (sym (same_contents a b s));
}

-- The list of entries that a log bounded in lines and bytes holds after one more.
abbrev pub remember : LogEntry → List LogEntry → List LogEntry
remember e es = fit_line (fit_bytes (entry_size e) es) ++ (e ∷ [])

module _ (io : FileIo) (e : LogEntry) (il : InstanceLog) (v : IsValid il) where
  abbrev stored : InstanceLog
  stored = add_entry e (evict_line (evict_bytes il.count (entry_size e) il))

  stored-Made : IsValid stored × (contents stored ≡ remember e (contents il))
  stored-Made =
      let (v1, c1) = evict_bytes-Made (entry_size e) il.count il refl v in
      let (v2, c2, room) = evict_line-Made (evict_bytes il.count (entry_size e) il) v1 in
      let (v3, c3) =
        add_entry-Made e (evict_line (evict_bytes il.count (entry_size e) il)) v2 room in
      (v3, c3 ∙ ap (λ es. es ++ (e ∷ [])) (c2 ∙ ap fit_line c1))

  append-Made : IsValid (append io e il) × (contents (append io e il) ≡ remember e (contents il))
  unfolding append
  append-Made =
      let s = write_file-SameRing io e stored stored.file in
      let saved = write_file io e stored stored.file in
      let (v', c) = stored-Made in
      let w = same-IsValid stored saved s v' in
      (
        record { sized = w.sized; placed = w.placed; filled = w.filled; counted = w.counted },
        same_contents stored saved s ∙ c,
      )

fit_bytes-fits :
    (size : ℕ) (es : List LogEntry)
    → (total_size (fit_bytes size es) + size ≤ max_bytes) ⊎ (fit_bytes size es ≡ [])
fit_bytes-fits size [] = inr refl
fit_bytes-fits size (e ∷ es) = ground (arith, fit_bytes-fits size es)

drop_one-le : (es : List LogEntry) → total_size (drop 1 es) ≤ total_size es
drop_one-le [] = omega arith
drop_one-le (e ∷ es) = omega arith

fit_line-le : (es : List LogEntry) → total_size (fit_line es) ≤ total_size es
fit_line-le es = ground (arith, drop_one-le es)

total_size-snoc :
    (es : List LogEntry) (e : LogEntry) → total_size (es ++ (e ∷ [])) ≡ total_size es + entry_size e
total_size-snoc [] e = omega arith
total_size-snoc (x ∷ es) e = omega (arith, total_size-snoc es e)

remember-fits :
    (e : LogEntry) (es : List LogEntry)
    → (total_size (remember e es) ≤ max_bytes) ⊎ (remember e es ≡ e ∷ [])
remember-fits e es = elim (fit_bytes-fits (entry_size e) es) [
  | inl h ↦ inl (
      omega (
        arith,
        total_size-snoc (fit_line (fit_bytes (entry_size e) es)) e,
        fit_line-le (fit_bytes (entry_size e) es),
      ))
  | inr h ↦ inr (ap (λ xs. fit_line xs ++ (e ∷ [])) h)
]

-- `Append` to a log whose ring is well-formed keeps it so, with its byte count that of its entries.
-- The ring then holds the entries that it held, less the oldest that had to go for the bytes and for
-- the lines, and the new one last; these are no more than the most lines, and no more than the most
-- bytes unless the new entry is alone.
pub append-contents :
    (io : FileIo) (e : LogEntry) (il : InstanceLog)
    → IsValid il
    → let il' = append io e il in
      IsValid il'
      × (contents il' ≡ remember e (contents il))
      × (length (contents il') ≤ max_lines)
      × ((il'.total_bytes ≤ max_bytes) ⊎ (contents il' ≡ e ∷ []))
append-contents io e il v =
    let (v', c) = append-Made io e il v in
    (
      v',
      c,
      omega (
        arith,
        length-window max_lines zero_entry (append io e il).entries (append io e il).head 0
            (append io e il).count,
        v'.filled,
      ),
      elim (remember-fits e (contents il)) [
        | inl h ↦ inl (omega (arith, v'.counted, ap total_size c))
        | inr h ↦ inr (c ∙ h)
      ],
    )

evict_bytes-subs : (f size : ℕ) (il : InstanceLog) → (evict_bytes f size il).subs ≡ il.subs
unfolding evict_bytes evict_oldest
evict_bytes-subs zero size il = refl
evict_bytes-subs (suc f) size il = ground (arith, evict_bytes-subs f size (evict_oldest il))

evict_line-subs : (il : InstanceLog) → (evict_line il).subs ≡ il.subs
unfolding evict_line evict_oldest
evict_line-subs il = ground arith

pub append-subs :
    (io : FileIo) (e : LogEntry) (il : InstanceLog)
    → (append io e il).subs ≡ map (deliver e) il.subs
unfolding append add_entry
append-subs io e il =
    let start = evict_bytes il.count (entry_size e) il in
    let kept =
      write_file-SameRing io e (add_entry e (evict_line start))
        (add_entry e (evict_line start)).file in
    ap (map (deliver e))
      (kept.subs ∙ evict_line-subs start ∙ evict_bytes-subs il.count (entry_size e) il)

pub new_instance_log-IsValid :
    (id : String) (size : Option ℕ) (lines : List LogEntry)
    → IsValid (new_instance_log id size lines)
unfolding new_instance_log window
new_instance_log-IsValid id size lines = record {
  sized = length-replicate max_lines zero_entry;
  placed = omega arith;
  filled = omega arith;
  counted = refl;
}
