-- ===== src/Tether.antt =====
-- internal/tether: the frames of the host-guest protocol, and the ring buffer of one instance.
-- A subscriber is its channel: an identity and the frames waiting in it, 100 at most. `wakes`
-- counts the wake channels closed so far. Sequence numbers do not reach 2^63.
pub mod Contents
pub mod Order
pub mod Query
pub mod Restart
pub mod Store
use Prim.Native.String
use text.Mathlib.Text.{starts_with}
use aegisvm.Base.{
  ℕ, zero, suc, ◌+◌, ◌-◌, ◌%◌, List, [], ◌∷◌, ◌++◌, map, Option, none, some, String, Bool, true,
  false, not, ◌||◌, ltb, leb, ◌==◌, if◌then◌else◌, ◌=s◌, length, set, replicate,
}
use aegisvm.Window.{window}

pub record Frame : Type 0 where
  pub v : ℕ
  pub type : String
  pub ts : String
  pub channel : String
  pub session : String
  pub msg_id : String
  pub seq : ℕ
  pub payload : String

unfoldable pub is_ingress : Frame → Bool
is_ingress f = starts_with f.type "user." || starts_with f.type "control."

unfoldable pub is_egress : Frame → Bool
unfolding is_ingress
is_egress f = not (is_ingress f)

abbrev pub zero_frame : Frame
zero_frame = record {
  v = 0;
  type = "";
  ts = "";
  channel = "";
  session = "";
  msg_id = "";
  seq = 0;
  payload = "";
}

pub record Subscriber : Type 0 where
  pub id : ℕ
  pub waiting : List Frame

pub record RingBuffer : Type 0 where
  pub frames : List Frame
  pub head : ℕ
  pub count : ℕ
  pub cap : ℕ
  pub seq_counter : ℕ
  pub subs : List Subscriber
  pub wakes : ℕ

unfoldable pub new_ring_buffer : ℕ → RingBuffer
new_ring_buffer capacity = record {
  frames = replicate capacity zero_frame;
  head = 0;
  count = 0;
  cap = capacity;
  seq_counter = 0;
  subs = [];
  wakes = 0;
}

-- The stored frames, oldest first: what every loop of the source walks.
abbrev pub contents : RingBuffer → List Frame
contents r = window r.cap zero_frame r.frames r.head 0 r.count

-- A send that does not wait: a full channel loses the frame.
abbrev deliver : Frame → Subscriber → Subscriber
deliver f s = if ltb (length s.waiting) 100 then record s { waiting = s.waiting ++ (f ∷ []) } else s

-- `atomic.AddInt64`, before the buffer's lock is taken.
unfoldable pub assign_seq : RingBuffer → Frame → RingBuffer × Frame
assign_seq r f =
    (record r { seq_counter = r.seq_counter + 1 }, record f { seq = r.seq_counter + 1 })

-- The write into the ring, in `append` and in `Load`.
unfoldable pub write : Frame → RingBuffer → RingBuffer
write f r =
    let head = if leb r.cap r.count then (r.head + 1) % r.cap else r.head in
    let count = if leb r.cap r.count then r.count else r.count + 1 in
    record r { head = head; count = count; frames = set r.frames ((head + (count - 1)) % r.cap) f }

-- Subscribers get the frame, and poll waiters are woken.
unfoldable pub announce : Frame → RingBuffer → RingBuffer
announce f r = record r { subs = map (deliver f) r.subs; wakes = r.wakes + 1 }

-- The critical section of `append`.
unfoldable pub store : Frame → RingBuffer → RingBuffer
unfolding write announce
store f r = announce f (write f r)

unfoldable pub append : Frame → RingBuffer → RingBuffer × ℕ
unfolding assign_seq store
append f r = let (r', f') = assign_seq r f in (store f' r', f'.seq)

unfoldable pub broadcast_only : Frame → RingBuffer → RingBuffer × ℕ
unfolding assign_seq announce
broadcast_only f r = let (r', f') = assign_seq r f in (announce f' r', f'.seq)

unfoldable pub subscribe : ℕ → RingBuffer → RingBuffer
subscribe id r = record r { subs = r.subs ++ (record { id = id; waiting = [] } ∷ []) }

-- The first subscriber with the channel goes.
unfoldable pub unsubscribe : ℕ → List Subscriber → List Subscriber
unsubscribe id [] = []
unsubscribe id (s ∷ ss) = if s.id == id then ss else s ∷ unsubscribe id ss

-- The loop of `Load`: no announcement, and the counter follows the frames.
unfoldable pub load : List Frame → RingBuffer → RingBuffer
unfolding write
load [] r = r
load (f ∷ fs) r =
    load fs (record (write f r) {
      seq_counter = if ltb r.seq_counter f.seq then f.seq else r.seq_counter;
    })
