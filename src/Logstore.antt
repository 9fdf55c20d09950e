-- ===== src/Logstore.antt =====
-- internal/logstore/logstore.go: the log of an instance, a ring of its last entries that is bounded in
-- lines and in bytes, with its file and its subscribers. The file system answers through `FileIo`.
pub mod Eviction
pub mod Refine
pub mod Follow
use aegisvm.Base.{
  ℕ, zero, suc, ◌+◌, ◌-◌, ◌*◌, ◌%◌, List, [], ◌∷◌, ◌++◌, map, Option, none, some, String, Bool,
  true, false, not, ◌&&◌, ltb, leb, if◌then◌else◌, ◌==◌, length, get_or, set, replicate, drop,
  codes, byte_length, lookup, insert, erase,
}
use aegisvm.Window.{window}

abbrev pub max_lines : ℕ
max_lines = 10000

abbrev pub max_bytes : ℕ
max_bytes = 5242880

abbrev pub max_file_bytes : ℕ
max_file_bytes = 10485760

pub record LogEntry : Type 0 where
  pub timestamp : ℕ
  pub stream : String
  pub line : String
  pub source : String
  pub instance_id : String
  pub exec_id : String

abbrev pub zero_entry : LogEntry
zero_entry = record {
  timestamp = 0;
  stream = "";
  line = "";
  source = "";
  instance_id = "";
  exec_id = "";
}

-- The handle of the log file; a handle whose reopening failed is closed, and its writes fail.
pub data Handle : Type 0 where
  absent open_file closed_file : Handle

pub record Subscriber : Type 0 where
  pub id : ℕ
  pub waiting : List LogEntry

pub record InstanceLog : Type 0 where
  pub instance_id : String
  pub entries : List LogEntry
  pub head : ℕ
  pub count : ℕ
  pub total_bytes : ℕ
  pub subs : List Subscriber
  pub file : Handle
  pub file_bytes : ℕ
  -- The lines of the file and of its rotated predecessor.
  pub written : List LogEntry
  pub rotated : List LogEntry

-- What the file system answers to one `Append`: the bytes written, and for a rotation whether the
-- file was renamed and opened again.
pub record FileIo : Type 0 where
  pub wrote : Option ℕ
  pub renamed : Bool
  pub reopened : Bool

unfoldable pub new_instance_log : String → Option ℕ → List LogEntry → InstanceLog
new_instance_log id size lines = record {
  instance_id = id;
  entries = replicate max_lines zero_entry;
  head = 0;
  count = 0;
  total_bytes = 0;
  subs = [];
  file = elim size [ none ↦ absent | some _ ↦ open_file ];
  file_bytes = elim size [ none ↦ 0 | some n ↦ n ];
  written = lines;
  rotated = [];
}

-- The entries that the ring holds, oldest first: what the loops of `Read` and `Subscribe` walk.
abbrev pub contents : InstanceLog → List LogEntry
contents il = window max_lines zero_entry il.entries il.head 0 il.count

unfoldable pub entry_size : LogEntry → ℕ
entry_size e =
    byte_length (codes e.line) + byte_length (codes e.stream) + byte_length (codes e.exec_id) + 100

-- One eviction, of the oldest entry.
unfoldable pub evict_oldest : InstanceLog → InstanceLog
evict_oldest il = record il {
  total_bytes = il.total_bytes - entry_size (get_or il.entries il.head zero_entry);
  head = (il.head + 1) % max_lines;
  count = il.count - 1;
}

-- The loop that makes room for an entry of `size` bytes; the first argument is the fuel.
unfoldable pub evict_bytes : ℕ → ℕ → InstanceLog → InstanceLog
unfolding evict_oldest
evict_bytes zero size il = il
evict_bytes (suc fuel) size il =
    let rest = evict_bytes fuel size (evict_oldest il) in
    if ltb 0 il.count && ltb max_bytes (il.total_bytes + size) then rest else il

unfoldable pub evict_line : InstanceLog → InstanceLog
unfolding evict_oldest
evict_line il = if leb max_lines il.count then evict_oldest il else il

unfoldable pub add_entry : LogEntry → InstanceLog → InstanceLog
add_entry e il = record il {
  entries = set il.entries ((il.head + il.count) % max_lines) e;
  count = il.count + 1;
  total_bytes = il.total_bytes + entry_size e;
}

unfoldable pub rotate : FileIo → InstanceLog → InstanceLog
rotate io il = record il {
  file = if io.reopened then open_file else closed_file;
  file_bytes = if io.reopened then 0 else il.file_bytes;
  rotated = if io.renamed then il.written else il.rotated;
  written = if io.renamed then [] else il.written;
}

write_bytes : FileIo → LogEntry → InstanceLog → Option ℕ → InstanceLog
unfolding rotate
write_bytes io e il none = il
write_bytes io e il (some n) =
    let more : InstanceLog = record il {
      file_bytes = il.file_bytes + n;
      written = il.written ++ (e ∷ []);
    } in
    if ltb max_file_bytes (il.file_bytes + n) then rotate io more else more

write_file : FileIo → LogEntry → InstanceLog → Handle → InstanceLog
unfolding write_bytes
write_file io e il open_file = write_bytes io e il io.wrote
write_file io e il absent = il
write_file io e il closed_file = il

-- A send that does not wait: a full channel loses the entry.
abbrev pub deliver : LogEntry → Subscriber → Subscriber
deliver e s = if ltb (length s.waiting) 100 then record s { waiting = s.waiting ++ (e ∷ []) } else s

-- `Append` of an entry that carries its time.
unfoldable pub append : FileIo → LogEntry → InstanceLog → InstanceLog
unfolding write_file
append io e il =
    let roomy = evict_line (evict_bytes il.count (entry_size e) il) in
    let stored = add_entry e roomy in
    let saved = write_file io e stored stored.file in
    record saved { subs = map (deliver e) saved.subs }

unfoldable pub since_filter : Option ℕ → List LogEntry → List LogEntry
since_filter none es = es
since_filter (some since) [] = []
since_filter (some since) (e ∷ es) =
    let rest = since_filter (some since) es in if ltb since e.timestamp then e ∷ rest else rest

-- `Read`; a tail of 0 is no limit.
unfoldable pub read : Option ℕ → ℕ → InstanceLog → List LogEntry
unfolding since_filter
read since tail il =
    let result = since_filter since (contents il) in
    if ltb 0 tail && ltb tail (length result) then drop (length result - tail) result else result

-- `Subscribe`: the log with the new channel, and the entries so far.
unfoldable pub subscribe : ℕ → InstanceLog → InstanceLog × List LogEntry
subscribe id il =
    (record il { subs = il.subs ++ (record { id = id; waiting = [] } ∷ []) }, contents il)

unfoldable pub unsubscribe : ℕ → List Subscriber → List Subscriber
unsubscribe id [] = []
unsubscribe id (s ∷ ss) = if s.id == id then ss else s ∷ unsubscribe id ss

unfoldable pub close : InstanceLog → InstanceLog
close il = record il { file = absent; subs = [] }

pub record LogStore : Type 0 where
  pub logs : List (String × InstanceLog)

abbrev made : Option InstanceLog → InstanceLog → InstanceLog
made none fresh = fresh
made (some il) fresh = il

-- `GetOrCreate`; `fresh` is the log that opening its file would make.
unfoldable pub get_or_create : String → InstanceLog → LogStore → LogStore × InstanceLog
get_or_create id fresh s =
    let il = made (lookup id s.logs) fresh in (record s { logs = insert id il s.logs }, il)

unfoldable pub get : String → LogStore → Option InstanceLog
get id s = lookup id s.logs

unfoldable pub remove : String → LogStore → LogStore
remove id s = record s { logs = erase id s.logs }
