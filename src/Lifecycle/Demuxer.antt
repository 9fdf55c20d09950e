-- ===== src/Lifecycle/Demuxer.antt =====
-- internal/lifecycle/demuxer.go: the calls that wait on one control channel, and the loop that routes
-- what comes in. Each call has a number for its response channel, which holds one message. A number
-- in an id is a float64, exact below 2^53; an id that is an array or an object is left out: Go panics
-- when the map is asked for it. JSON that is no object with the fields is `invalid`.
pub mod Delivery
use aegisvm.Base.{
  ℕ, ◌+◌, List, [], ◌∷◌, ◌++◌, map, Option, none, some, String, ℤ, Bool, true, false, not, eqb_ℤ,
  if◌then◌else◌, ◌=s◌,
}

pub data RpcId : Type 0 where
  float int int64 : ℤ → RpcId
  text : String → RpcId
  flag : Bool → RpcId

-- What an id is in the map: every number is a float.
pub data Key : Type 0 where
  number : ℤ → Key
  name : String → Key
  truth : Bool → Key

-- `normalizeID`
unfoldable pub normalize_id : RpcId → Key
normalize_id (float v) = number v
normalize_id (int v) = number v
normalize_id (int64 v) = number v
normalize_id (text s) = name s
normalize_id (flag b) = truth b

unfoldable pub same_key : Key → Key → Bool
same_key (number a) (number b) = eqb_ℤ a b
same_key (name a) (name b) = a =s b
same_key (truth a) (truth b) = if a then b else not b
same_key (number a) (name b) = false
same_key (number a) (truth b) = false
same_key (name a) (number b) = false
same_key (name a) (truth b) = false
same_key (truth a) (number b) = false
same_key (truth a) (name b) = false

pub record RpcMessage : Type 0 where
  pub id : Option RpcId
  pub method : String
  pub body : String

pub record Demuxer : Type 0 where
  pub pending : List (Key × ℕ)
  -- The number of the next call.
  pub next : ℕ
  -- What was sent on response channels, and those that were closed.
  pub sent : List (ℕ × RpcMessage)
  pub closed : List ℕ
  pub done : Bool

-- What the loop starts besides: a notification's callback, or a guest request's handler.
pub data Upcall : Type 0 where
  notified requested : String → Upcall

abbrev pub new_channel_demuxer : Demuxer
new_channel_demuxer = record { pending = []; next = 0; sent = []; closed = []; done = false }

unfoldable pub find_call : Key → List (Key × ℕ) → Option ℕ
find_call k [] = none
find_call k ((j, c) ∷ m) = if same_key j k then some c else find_call k m

-- `delete(d.pending, k)`
unfoldable pub drop_call : Key → List (Key × ℕ) → List (Key × ℕ)
drop_call k [] = []
drop_call k ((j, c) ∷ m) = let rest = drop_call k m in if same_key j k then rest else (j, c) ∷ rest

-- `d.pending[k] = c`
unfoldable pub put_call : Key → ℕ → List (Key × ℕ) → List (Key × ℕ)
unfolding drop_call
put_call k c m = (k, c) ∷ drop_call k m

-- The first critical section of `Call`: the channel is registered, and the request sent.
unfoldable pub call_begin : RpcId → Demuxer → Demuxer
call_begin id d = record d {
  pending = put_call (normalize_id id) d.next d.pending;
  next = d.next + 1;
}

-- The error exits of `Call`, after a failed send or at the end of the context.
unfoldable pub call_withdraw : RpcId → Demuxer → Demuxer
call_withdraw id d = record d { pending = drop_call (normalize_id id) d.pending }

abbrev pub calls_of : List (Key × ℕ) → List ℕ
calls_of [] = []
calls_of ((k, c) ∷ m) = c ∷ calls_of m

route_found : Key → RpcMessage → Demuxer → Option ℕ → Demuxer
route_found k msg d none = d
route_found k msg d (some c) = record d {
  pending = drop_call k d.pending;
  sent = d.sent ++ ((c, msg) ∷ []);
}

-- A response goes to the call that is registered under its id.
unfoldable pub route_response : RpcId → RpcMessage → Demuxer → Demuxer
unfolding route_found
route_response id msg d =
    route_found (normalize_id id) msg d (find_call (normalize_id id) d.pending)

-- One message: a response has an id and no method, a request both, a notification a method alone.
receive_parsed : RpcMessage → Demuxer → Option RpcId → Demuxer × List Upcall
receive_parsed msg d (some id) =
    if msg.method =s "" then (route_response id msg d, []) else (d, requested msg.method ∷ [])
receive_parsed msg d none = if msg.method =s "" then (d, []) else (d, notified msg.method ∷ [])

-- What `Recv` returns: a message, unreadable bytes, an error, or the end by `Stop`.
pub data Received : Type 0 where
  message : RpcMessage → Received
  invalid failed ended : Received

-- One round of `recvLoop`; nothing is received once it is done.
unfoldable pub receive : Received → Demuxer → Demuxer × List Upcall
unfolding receive_parsed
receive (message msg) d = receive_parsed msg d msg.id
receive invalid d = (d, [])
receive failed d =
    (record d { pending = []; closed = d.closed ++ calls_of d.pending; done = true }, [])
receive ended d = (record d { done = true }, [])

pub data Action : Type 0 where
  begins withdraws : RpcId → Action
  receives : Received → Action

unfoldable pub act : Action → Demuxer → Demuxer
unfolding receive call_begin call_withdraw
act (begins id) d = call_begin id d
act (withdraws id) d = call_withdraw id d
act (receives r) d = if d.done then d else (receive r d).0

unfoldable pub act_all : List Action → Demuxer → Demuxer
unfolding act
act_all [] d = d
act_all (a ∷ more) d = act_all more (act a d)
