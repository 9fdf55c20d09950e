-- ===== src/Logstore/Eviction.antt =====
-- Making room in the ring of internal/logstore/logstore.go.
use aegisvm.Base.{
  ℕ, zero, suc, ◌+◌, ◌-◌, ◌%◌, ◌≤◌, ◌<◌, ◌≡◌, refl, ap, sym, ◌∙◌, List, [], ◌∷◌, ◌++◌, true, false,
  ltb, leb, if◌then◌else◌, length, length-set, get_or, set, drop, arith, Bool-cases, inl, inr,
}
use native.Mathlib.Nat.{mod-lt, mod-eq_of_lt}
use aegisvm.Window.{window, length-window, window-next, window-write}
use aegisvm.Logstore.{
  LogEntry, zero_entry, InstanceLog, contents, max_lines, max_bytes, entry_size, evict_oldest,
  evict_bytes, evict_line, add_entry,
}

abbrev pub total_size : List LogEntry → ℕ
total_size [] = 0
total_size (e ∷ es) = entry_size e + total_size es

-- The ring has its full length, and its byte count is that of its entries.
pub record IsValid (il : InstanceLog) : Type 0 where
  pub sized : length il.entries ≡ max_lines
  pub placed : il.head < max_lines
  pub filled : il.count ≤ max_lines
  pub counted : il.total_bytes ≡ total_size (contents il)

-- The bytes that a list of entries may keep beside a new one: the oldest go until it fits.
abbrev pub fit_bytes : ℕ → List LogEntry → List LogEntry
fit_bytes size [] = []
fit_bytes size (e ∷ es) =
    if ltb max_bytes (total_size (e ∷ es) + size) then fit_bytes size es else e ∷ es

abbrev pub fit_line : List LogEntry → List LogEntry
fit_line es = if leb max_lines (length es) then drop 1 es else es

-- The ring seen from its oldest entry.
contents-cons :
    (il : InstanceLog) (n : ℕ)
    → il.head < max_lines
    → il.count ≡ suc n
    → contents il
      ≡ get_or il.entries il.head zero_entry ∷ window max_lines zero_entry il.entries il.head 1 n
unfolding window
contents-cons il n h e =
    let here : (il.head + 0) % max_lines ≡ il.head =
      ap (λ k. k % max_lines) (omega arith) ∙ mod-eq_of_lt h in
    rw (e, here)

contents-evict_oldest :
    (il : InstanceLog) (n : ℕ)
    → il.count ≡ suc n
    → contents (evict_oldest il) ≡ window max_lines zero_entry il.entries il.head 1 n
unfolding evict_oldest
contents-evict_oldest il n e =
    let less : il.count - 1 ≡ n = omega arith in
    rw less (window-next max_lines zero_entry il.entries il.head 0 n)

evict_oldest-IsValid : (il : InstanceLog) → 0 < il.count → IsValid il → IsValid (evict_oldest il)
unfolding evict_oldest
evict_oldest-IsValid il p v = record {
  sized = v.sized;
  placed = mod-lt (il.head + 1) (omega arith);
  filled = omega (arith, v.filled);
  counted =
      let n = il.count - 1 in
      let e : il.count ≡ suc n = omega arith in
      let size = v.counted ∙ ap total_size (contents-cons il n v.placed e) in
      omega (arith, size, ap total_size (contents-evict_oldest il n e));
}

module _ (size : ℕ) where
  abbrev Made : InstanceLog → InstanceLog → Type 0
  Made il il' = IsValid il' × (contents il' ≡ fit_bytes size (contents il))

  fit_cons :
      (e : LogEntry) (es : List LogEntry) (il : InstanceLog)
      → contents il ≡ e ∷ es
      → il.total_bytes ≡ total_size (contents il)
      → fit_bytes size (contents il)
        ≡ (if ltb max_bytes (il.total_bytes + size) then fit_bytes size es else e ∷ es)
  fit_cons e es il c t =
      let total : il.total_bytes ≡ total_size (e ∷ es) = t ∙ ap total_size c in rw (c, total) refl

  contents-zero : (il : InstanceLog) → il.count ≡ 0 → contents il ≡ []
  unfolding window
  contents-zero il e = rw e refl

  evict_bytes-next :
      (f : ℕ) (il : InstanceLog)
      → 0 < il.count
      → evict_bytes (suc f) size il ≡ (
          if ltb max_bytes (il.total_bytes + size)
          then evict_bytes f size (evict_oldest il)
          else il)
  unfolding evict_bytes
  evict_bytes-next f il p = ground arith

  -- The loop keeps the entries that fit, and its fuel is the number of entries.
  pub evict_bytes-Made :
      (f : ℕ) (il : InstanceLog) → il.count ≡ f → IsValid il → Made il (evict_bytes f size il)
  evict_bytes-Made zero il e v =
      unfold evict_bytes in (v, contents-zero il e ∙ sym (ap (fit_bytes size) (contents-zero il e)))
  evict_bytes-Made (suc f) il e v =
      let old = evict_oldest il in
      let (v', c) =
        evict_bytes-Made f old (unfold evict_oldest in omega arith)
          (evict_oldest-IsValid il (omega arith) v) in
      let cons = contents-cons il f v.placed e in
      let fits = fit_cons _ _ il cons v.counted in
      elim (Bool-cases (ltb max_bytes (il.total_bytes + size))) [
        | inl h ↦
            rw (evict_bytes-next f il (omega arith), h)
              (v', c ∙ ap (fit_bytes size) (contents-evict_oldest il f e) ∙ sym (fits ∙ rw h refl))
        | inr h ↦ rw (evict_bytes-next f il (omega arith), h) (v, cons ∙ sym (fits ∙ rw h refl))
      ]

drop-one :
    (il : InstanceLog) (n : ℕ)
    → il.head < max_lines
    → il.count ≡ suc n
    → drop 1 (contents il) ≡ contents (evict_oldest il)
drop-one il n h e = ap (drop 1) (contents-cons il n h e) ∙ sym (contents-evict_oldest il n e)

pub evict_line-Made :
    (il : InstanceLog)
    → IsValid il
    → IsValid (evict_line il)
      × (contents (evict_line il) ≡ fit_line (contents il))
      × ((evict_line il).count < max_lines)
unfolding evict_line
evict_line-Made il v = elim (Bool-cases (leb max_lines il.count)) [
  | inl h ↦
      let count : il.count ≡ suc (il.count - 1) = ground arith in
      let full : leb max_lines (length (contents il)) ≡ true =
        ap (leb max_lines) (length-window max_lines zero_entry il.entries il.head 0 il.count) ∙ h in
      rw (h, full)
        (
          evict_oldest-IsValid il (ground arith) v,
          sym (drop-one il (il.count - 1) v.placed count),
          unfold evict_oldest in omega (arith, v.filled),
        )
  | inr h ↦
      let room : leb max_lines (length (contents il)) ≡ false =
        ap (leb max_lines) (length-window max_lines zero_entry il.entries il.head 0 il.count) ∙ h in
      rw (h, room) (v, refl, ground arith)
]

total_size-append : (xs ys : List LogEntry) → total_size (xs ++ ys) ≡ total_size xs + total_size ys
total_size-append [] ys = omega arith
total_size-append (x ∷ xs) ys = omega (arith, total_size-append xs ys)

pub add_entry-Made :
    (e : LogEntry) (il : InstanceLog)
    → IsValid il
    → il.count < max_lines
    → IsValid (add_entry e il) × (contents (add_entry e il) ≡ contents il ++ (e ∷ []))
unfolding add_entry
add_entry-Made e il v h =
    let n : il.count + 1 ≡ suc il.count = omega arith in
    let same =
      ap
        (λ k.
          window max_lines zero_entry (set il.entries ((il.head + il.count) % max_lines) e) il.head
            0 k)
        n
      ∙ window-write max_lines zero_entry il.entries e il.head il.count (omega (arith, v.sized))
          v.placed h in
    (
      record {
        sized = length-set il.entries ((il.head + il.count) % max_lines) e ∙ v.sized;
        placed = v.placed;
        filled = omega arith;
        counted =
            omega (arith, v.counted, ap total_size same, total_size-append (contents il) (e ∷ []));
      },
      same,
    )
