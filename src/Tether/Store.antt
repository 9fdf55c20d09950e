-- ===== src/Tether/Store.antt =====
-- internal/tether/store.go: the map of ring buffers by instance. `persisted` lists the calls of the
-- persist callback; `encodes` tells whether a frame can be written as JSON.
pub mod Mirror
use aegisvm.Base.{
  ℕ, ◌+◌, List, [], ◌∷◌, ◌++◌, Option, none, some, String, Bool, true, false, ◌&&◌, ◌||◌,
  if◌then◌else◌, ◌=s◌, lookup, insert, erase,
}
use aegisvm.Tether.{Frame, RingBuffer, new_ring_buffer, append, broadcast_only, subscribe, load}
use aegisvm.Tether.Query.{QueryOpts, QueryResult, query, recent}

pub record Saved : Type 0 where
  pub instance_id : String
  pub seq : ℕ
  pub frame : Frame

pub record Store : Type 0 where
  pub buffers : List (String × RingBuffer)
  pub has_persist : Bool
  pub persisted : List Saved

abbrev pub default_ring_size : ℕ
default_ring_size = 1000

abbrev pub new_store : Bool → Store
new_store has_persist = record { buffers = []; has_persist = has_persist; persisted = [] }

unfoldable pub is_transient_frame : String → Bool
is_transient_frame typ = typ =s "assistant.delta" || typ =s "reasoning.delta"

abbrev or_new : Option RingBuffer → RingBuffer
or_new none = new_ring_buffer default_ring_size
or_new (some r) = r

-- The ring that the call finds or makes; every caller then stores what it leaves of it.
abbrev pub get_or_create : String → Store → RingBuffer
get_or_create id s = or_new (lookup id s.buffers)

abbrev put : String → RingBuffer → Store → Store
put id r s = record s { buffers = insert id r s.buffers }

-- The persist callback, where it is set and the frame can be written.
abbrev persist : (Frame → Bool) → String → ℕ → Frame → Store → Store
persist encodes id seq f s =
    let frame : Frame = record f { seq = seq } in
    if s.has_persist && encodes frame
    then record s {
      persisted = s.persisted ++ (record { instance_id = id; seq = seq; frame = frame } ∷ []);
    }
    else s

unfoldable pub append_to : (Frame → Bool) → String → Frame → Store → Store × ℕ
append_to encodes id f s =
    let sent = broadcast_only f (get_or_create id s) in
    let stored = append f (get_or_create id s) in
    if is_transient_frame f.type
    then (put id sent.0 s, sent.1)
    else (persist encodes id stored.1 f (put id stored.0 s), stored.1)

unfoldable pub next_seq : String → Store → Store × ℕ
next_seq id s =
    let r = get_or_create id s in
    (put id (record r { seq_counter = r.seq_counter + 1 }) s, r.seq_counter + 1)

unfoldable pub subscribe_to : String → ℕ → Store → Store
subscribe_to id n s = put id (subscribe n (get_or_create id s)) s

-- A query of an instance that has no ring makes none.
unfoldable pub query_in : String → QueryOpts → Store → QueryResult
query_in id o s = elim (lookup id s.buffers) [
  | none ↦ record { frames = []; next_seq = o.after_seq; timed_out = false }
  | some r ↦ query o r
]

unfoldable pub recent_of : String → ℕ → Store → List Frame
recent_of id n s = elim (lookup id s.buffers) [ none ↦ [] | some r ↦ recent n r ]

unfoldable pub remove : String → Store → Store
remove id s = record s { buffers = erase id s.buffers }

unfoldable pub load_into : String → List Frame → Store → Store
load_into id [] s = s
load_into id (f ∷ fs) s = put id (load (f ∷ fs) (get_or_create id s)) s
