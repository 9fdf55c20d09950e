-- ===== src/Tests/Frames.antt =====
-- A concrete ring buffer of internal/tether/store.go, and what the theorems say of it.
use aegisvm.Base.{◌∷◌, [], ◌≤◌, List, last, Bool, true, ◌+◌, ◌++◌, ◌≡◌, refl, arith, take, select}
use aegisvm.Window.{window}
use aegisvm.Tether.{load, Frame, zero_frame, RingBuffer, new_ring_buffer, contents, append}
use aegisvm.Tether.Contents.{remember, new_ring_buffer-IsValid}
use aegisvm.Tether.Order.{IsOrdered, stamped, append_refines}
use aegisvm.Tether.Restart.{load_refines}
use aegisvm.Tether.Contents.{Rising}
use aegisvm.Tether.Store.{new_store}
use aegisvm.Tether.Store.Mirror.{
  Mirrors, new_store-Mirrors, Call, appends, bumps, subscribes, calls, calls-Mirrors,
}
use aegisvm.Tether.Query.{QueryOpts, effective_limit, is_after, query}
use aegisvm.Tether.Query.Paging.{query-pages}

abbrev frame : Frame
frame = record zero_frame { type = "user.message"; channel = "chat" }

abbrev empty_ring : RingBuffer
empty_ring = new_ring_buffer 3

empty_ring-IsOrdered : IsOrdered empty_ring
unfolding new_ring_buffer window
empty_ring-IsOrdered = record {
  valid = new_ring_buffer-IsValid 3 (omega arith);
  rising = omega arith;
}

-- Three frames and a fourth, which takes the place of the first.
abbrev one_frame : RingBuffer
one_frame = (append frame empty_ring).0

one_frame-IsOrdered : IsOrdered one_frame
one_frame-IsOrdered = (append_refines frame empty_ring empty_ring-IsOrdered).3

append_refines_example :
    let (r, seq) = append frame one_frame in
    (contents r ≡ remember one_frame.cap (contents one_frame) (stamped one_frame frame))
    × (seq ≡ one_frame.seq_counter + 1)
    × (r.seq_counter ≡ seq)
    × IsOrdered r
append_refines_example = append_refines frame one_frame one_frame-IsOrdered

abbrev opts : QueryOpts
opts = record {
  channel = "";
  session = "";
  after_seq = 0;
  before_seq = 0;
  types = [];
  reply_to_msg_id = "";
  limit = 1;
}

query-pages_example :
    let first = query opts one_frame in
    let second = query (record opts { after_seq = first.next_seq; limit = 5 }) one_frame in
    first.frames ++ second.frames
    ≡ take (effective_limit 1 + effective_limit 5) (select (is_after opts 0) (contents one_frame))
query-pages_example = query-pages opts one_frame 5 one_frame-IsOrdered refl

abbrev persisted_frames : List Frame
persisted_frames = record frame { seq = 3 } ∷ record frame { seq = 4 } ∷ []

rises : Rising empty_ring.seq_counter persisted_frames 9
unfolding new_ring_buffer
rises = (omega arith, (omega arith, omega arith))

load_refines_example :
    let r = load persisted_frames empty_ring in
    (contents r ≡ last empty_ring.cap (contents empty_ring ++ persisted_frames))
    × IsOrdered r
    × (r.seq_counter ≤ 9)
    × (r.cap ≡ empty_ring.cap)
load_refines_example = load_refines persisted_frames empty_ring 9 empty_ring-IsOrdered rises

abbrev script : List Call
script =
    appends "inst-1" frame
    ∷ appends "inst-2" (record frame { type = "assistant.delta" })
    ∷ bumps "inst-1"
    ∷ subscribes "inst-2" 1
    ∷ appends "inst-1" frame
    ∷ []

abbrev encodes_all : Frame → Bool
encodes_all f = true

calls-Mirrors_example : Mirrors "inst-1" (calls encodes_all script (new_store true))
calls-Mirrors_example =
    calls-Mirrors encodes_all script (new_store true) "inst-1" (λ f. refl) refl
      (new_store-Mirrors "inst-1")
