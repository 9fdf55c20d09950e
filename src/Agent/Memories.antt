-- ===== src/Agent/Memories.antt =====
-- cmd/aegis-agent/memory.go: what an agent remembers, in memory and in a file of one entry a line. A
-- text is its list of code points; letters are lowered as in ASCII. Whether a text looks like a
-- secret is an argument, as are what the file system answers and the length of an entry's line, its JSON; a
-- time of a file is a number.
pub mod Search
pub mod Mirror
use aegisvm.Base.{
  ℕ, ◌+◌, ◌-◌, ◌*◌, List, [], ◌∷◌, ◌++◌, Option, none, some, String, Bool, true, false, not, ◌&&◌,
  ltb, leb, ◌==◌, if◌then◌else◌, codes, length, drop, byte_length, decimal, same_text,
}

pub record MemoryEntry : Type 0 where
  pub id : List ℕ
  pub scope : List ℕ
  pub text : List ℕ
  pub tags : List (List ℕ)
  pub ts : String

-- The store in memory; `max_total` is that of its configuration, where 0 is the default.
pub record MemoryStore : Type 0 where
  pub entries : List MemoryEntry
  pub next_id : ℕ
  pub mtime : ℕ
  pub max_total : ℕ

-- The lines of the file that are entries, and its time.
pub record MemoryFile : Type 0 where
  pub lines : List MemoryEntry
  pub changed_at : ℕ

pub record Memories : Type 0 where
  pub store : MemoryStore
  pub file : Option MemoryFile

abbrev is_number : ℕ → Bool
is_number c = leb b'0' c && leb c b'9'

scan_number : ℕ → List ℕ → ℕ
scan_number n [] = n
scan_number n (c ∷ cs) =
    let rest = scan_number (10 * n + (c - b'0')) cs in if is_number c then rest else n

-- The number in `m-<N>`, for one that has no sign.
parse_memory_id : List ℕ → ℕ
unfolding scan_number
parse_memory_id (a ∷ b ∷ cs) = if (a == b'm') && (b == b'-') then scan_number 0 cs else 0
parse_memory_id _ = 0

abbrev pub has_text : List ℕ → Bool
has_text [] = false
has_text (c ∷ cs) = true

-- The buffer of the scanner in `Load`, which holds a line and its end.
abbrev pub max_line : ℕ
max_line = 65536

-- The loop of `Load`: entries without an id are passed over, and a line that the buffer does not hold
-- ends it. The first argument is the length of an entry's line.
unfoldable pub loaded_entries : (MemoryEntry → ℕ) → List MemoryEntry → List MemoryEntry
loaded_entries size [] = []
loaded_entries size (e ∷ es) =
    let rest = loaded_entries size es in
    if ltb (size e) max_line then if has_text e.id then e ∷ rest else rest else []

unfoldable pub next_after : ℕ → List MemoryEntry → ℕ
unfolding parse_memory_id
next_after n [] = n
next_after n (e ∷ es) =
    next_after (if leb n (parse_memory_id e.id) then parse_memory_id e.id + 1 else n) es

load_file : (MemoryEntry → ℕ) → Option MemoryFile → MemoryStore → MemoryStore
unfolding loaded_entries next_after
load_file size none s = s
load_file size (some f) s = record s {
  entries = loaded_entries size f.lines;
  next_id = next_after 0 (loaded_entries size f.lines);
  mtime = f.changed_at;
}

-- `Load`
unfoldable pub load : (MemoryEntry → ℕ) → Memories → Memories
unfolding load_file
load size m = record m { store = load_file size m.file m.store }

-- `NewMemoryStore` on a file that may be there.
unfoldable pub new_memory_store : (MemoryEntry → ℕ) → ℕ → Option MemoryFile → Memories
unfolding load
new_memory_store size max_total f = load size (record {
  store = record { entries = []; next_id = 0; mtime = 0; max_total = max_total };
  file = f;
})

reload_file : (MemoryEntry → ℕ) → Option MemoryFile → Memories → Memories
unfolding load
reload_file size none m = m
reload_file size (some f) m = if ltb m.store.mtime f.changed_at then load size m else m

-- `reloadIfChanged`
unfoldable pub reload_if_changed : (MemoryEntry → ℕ) → Memories → Memories
unfolding reload_file
reload_if_changed size m = reload_file size m.file m

-- What the file system answers to a call: whether the file can be rewritten and opened, and its times
-- after the one and the other.
pub record MemoryIo : Type 0 where
  pub rewrites : Bool
  pub opens : Bool
  pub rewritten_at : ℕ
  pub appended_at : ℕ

-- `rewriteFile`
unfoldable pub rewrite_file : MemoryIo → Memories → Memories
rewrite_file io m =
    if io.rewrites
    then record {
      store = record m.store { mtime = io.rewritten_at };
      file = some (record { lines = m.store.entries; changed_at = io.rewritten_at });
    }
    else m

abbrev pub capacity : MemoryStore → ℕ
capacity s = if s.max_total == 0 then 500 else s.max_total

-- The oldest entries go, so that there is room for one.
unfoldable pub prune_oldest : MemoryIo → Memories → Memories
unfolding rewrite_file
prune_oldest io m =
    let excess = length m.store.entries - capacity m.store + 1 in
    if leb (capacity m.store) (length m.store.entries)
    then rewrite_file io
        (record m { store = record m.store { entries = drop excess m.store.entries } })
    else m

abbrev lines_of : Option MemoryFile → List MemoryEntry
lines_of none = []
lines_of (some f) = f.lines

pub data MemoryError : Type 0 where
  text_required text_too_long secret_text open_failed rewrite_failed unknown_id : MemoryError

pub data MemoryReply : Type 0 where
  remembered : List ℕ → MemoryReply
  forgotten : MemoryReply
  refused : MemoryError → MemoryReply

pub record MemoryRequest : Type 0 where
  pub text : List ℕ
  pub tags : List (List ℕ)
  pub scope : List ℕ
  -- What `looksLikeSecret` says of the text.
  pub secret : Bool
  pub now : String

abbrev pub memory_id : ℕ → List ℕ
memory_id n = codes "m-" ++ decimal n

new_memory : MemoryRequest → ℕ → MemoryEntry
new_memory req n = record {
  id = memory_id n;
  scope = if has_text req.scope then req.scope else codes "workspace";
  text = req.text;
  tags = req.tags;
  ts = req.now;
}

-- The end of `Store`: the number is taken whether or not the file opens.
add_memory : MemoryIo → MemoryRequest → Memories → Memories × MemoryReply
unfolding new_memory
add_memory io req m =
    let e = new_memory req m.store.next_id in
    let counted : MemoryStore = record m.store { next_id = m.store.next_id + 1 } in
    if io.opens
    then (
      record {
        store = record counted { entries = m.store.entries ++ (e ∷ []); mtime = io.appended_at };
        file = some (record { lines = lines_of m.file ++ (e ∷ []); changed_at = io.appended_at });
      },
      remembered e.id,
    )
    else (record m { store = counted }, refused open_failed)

-- `Store`
unfoldable pub remember :
    (MemoryEntry → ℕ) → MemoryIo → MemoryRequest → Memories → Memories × MemoryReply
unfolding add_memory
remember size io req m =
    if not (has_text req.text)
    then (m, refused text_required)
    else if ltb 500 (byte_length req.text)
    then (m, refused text_too_long)
    else if req.secret
    then (m, refused secret_text)
    else add_memory io req (prune_oldest io (reload_if_changed size m))

unfoldable pub knows : List ℕ → List MemoryEntry → Bool
knows id [] = false
knows id (e ∷ es) = if same_text e.id id then true else knows id es

unfoldable pub others : List ℕ → List MemoryEntry → List MemoryEntry
others id [] = []
others id (e ∷ es) = let rest = others id es in if same_text e.id id then rest else e ∷ rest

forget_in : MemoryIo → List ℕ → Memories → Memories × MemoryReply
forget_in io id m =
    if knows id m.store.entries
    then (
      rewrite_file io (record m { store = record m.store { entries = others id m.store.entries } }),
      if io.rewrites then forgotten else refused rewrite_failed,
    )
    else (m, refused unknown_id)

-- `Delete`
unfoldable pub forget : (MemoryEntry → ℕ) → MemoryIo → List ℕ → Memories → Memories × MemoryReply
unfolding forget_in
forget size io id m = forget_in io id (reload_if_changed size m)
