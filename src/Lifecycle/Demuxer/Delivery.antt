-- ===== src/Lifecycle/Demuxer/Delivery.antt =====
-- What reaches the response channels of internal/lifecycle/demuxer.go.
use aegisvm.Base.{
  ℕ, ◌+◌, ◌≤◌, ◌≡◌, refl, ◌∙◌, List, [], ◌∷◌, ◌++◌, Option, none, some, String, true, false, ◌==◌,
  if◌then◌else◌, if_cases, ◌=s◌, =s_iff, =s_refl, arith,
}
use aegisvm.Lifecycle.Demuxer.{
  RpcId, Key, number, name, truth, normalize_id, same_key, RpcMessage, Demuxer, new_channel_demuxer,
  find_call, drop_call, put_call, call_begin, call_withdraw, calls_of, route_found, route_response,
  receive_parsed, Received, message, invalid, failed, ended, receive, Action, begins, withdraws,
  receives, act, act_all, Upcall,
}

abbrev count : ℕ → List ℕ → ℕ
count c [] = 0
count c (d ∷ ds) = (if d == c then 1 else 0) + count c ds

abbrev targets : List (ℕ × RpcMessage) → List ℕ
targets [] = []
targets ((c, msg) ∷ more) = c ∷ targets more

-- How often the channel of a call is registered, was sent to, or was closed.
abbrev pub uses : ℕ → Demuxer → ℕ
uses c d = count c (calls_of d.pending) + count c (targets d.sent) + count c d.closed

-- No channel is used twice, and no channel of a call to come is used.
pub record IsSound (d : Demuxer) : Type 0 where
  pub once : (c : ℕ) → uses c d ≤ 1
  pub fresh : (c : ℕ) → d.next ≤ c → uses c d ≡ 0

count-append : (c : ℕ) (xs ys : List ℕ) → count c (xs ++ ys) ≡ count c xs + count c ys
count-append c [] ys = omega arith
count-append c (x ∷ xs) ys = omega (arith, count-append c xs ys)

targets-append :
    (c k : ℕ) (msg : RpcMessage) (xs : List (ℕ × RpcMessage))
    → count c (targets (xs ++ ((k, msg) ∷ []))) ≡ count c (targets xs) + (if k == c then 1 else 0)
targets-append c k msg [] = omega arith
targets-append c k msg ((j, m) ∷ xs) = omega (arith, targets-append c k msg xs)

drop_call-le :
    (c : ℕ) (k : Key) (m : List (Key × ℕ))
    → count c (calls_of (drop_call k m)) ≤ count c (calls_of m)
unfolding drop_call
drop_call-le c k [] = omega arith
drop_call-le c k ((j, x) ∷ m) = ground (arith, drop_call-le c k m)

-- Taking the call of a key out of the map.
drop_call-found :
    (c x : ℕ) (k : Key) (m : List (Key × ℕ))
    → find_call k m ≡ some x
    → count c (calls_of (drop_call k m)) + (if x == c then 1 else 0) ≤ count c (calls_of m)
unfolding drop_call find_call
drop_call-found c x k [] h = cc
drop_call-found c x k ((j, y) ∷ m) h = ground (arith, drop_call-found c x k m, drop_call-le c k m)

module _ (c : ℕ) (d : Demuxer) (once : uses c d ≤ 1) (fresh : d.next ≤ c → uses c d ≡ 0) where
  abbrev Fits : Demuxer → Type 0
  Fits d' = (uses c d' ≤ 1) × (d'.next ≤ c → uses c d' ≡ 0)

  begin-Fits : (id : RpcId) → Fits (call_begin id d)
  unfolding call_begin put_call
  begin-Fits id = (
    ground (arith, drop_call-le c (normalize_id id) d.pending),
    λ h. ground (arith, drop_call-le c (normalize_id id) d.pending, fresh),
  )

  withdraw-Fits : (id : RpcId) → Fits (call_withdraw id d)
  unfolding call_withdraw
  withdraw-Fits id = (
    ground (arith, drop_call-le c (normalize_id id) d.pending),
    λ h. ground (arith, drop_call-le c (normalize_id id) d.pending, fresh h),
  )

  found-Fits :
      (k : Key) (msg : RpcMessage) (o : Option ℕ)
      → find_call k d.pending ≡ o
      → Fits (route_found k msg d o)
  unfolding route_found
  found-Fits k msg none e = (once, fresh)
  found-Fits k msg (some x) e = (
    omega (arith, drop_call-found c x k d.pending e, targets-append c x msg d.sent),
    λ h. omega (arith, drop_call-found c x k d.pending e, targets-append c x msg d.sent, fresh h),
  )

  parsed-Fits : (msg : RpcMessage) (o : Option RpcId) → Fits (receive_parsed msg d o).0
  unfolding receive_parsed route_response
  parsed-Fits msg none =
      if_cases (λ (r : Demuxer × List Upcall). Fits r.0) (msg.method =s "") _ _ (once, fresh)
        (once, fresh)
  parsed-Fits msg (some id) =
      if_cases (λ (r : Demuxer × List Upcall). Fits r.0) (msg.method =s "") _ _
        (found-Fits (normalize_id id) msg (find_call (normalize_id id) d.pending) refl)
        (once, fresh)

  receive-Fits : (r : Received) → Fits (receive r d).0
  unfolding receive
  receive-Fits (message msg) = parsed-Fits msg msg.id
  receive-Fits invalid = (once, fresh)
  receive-Fits failed = (
    omega (arith, count-append c d.closed (calls_of d.pending)),
    λ h. omega (arith, count-append c d.closed (calls_of d.pending), fresh h),
  )
  receive-Fits ended = (once, fresh)

  act-Fits : (a : Action) → Fits (act a d)
  unfolding act
  act-Fits (begins id) = begin-Fits id
  act-Fits (withdraws id) = withdraw-Fits id
  act-Fits (receives r) = if_cases Fits d.done _ _ (once, fresh) (receive-Fits r)

act-IsSound : (a : Action) (d : Demuxer) → IsSound d → IsSound (act a d)
act-IsSound a d v = record {
  once = λ c. (act-Fits c d (v.once c) (v.fresh c) a).0;
  fresh = λ c. (act-Fits c d (v.once c) (v.fresh c) a).1;
}

-- Over any actions, a demuxer in which no response channel is registered, sent to and closed more than
-- once in all, and none of a call to come at all, stays so: the loop never sends on a channel that is
-- full or closed, and never closes one twice.
pub act_all-IsSound : (more : List Action) (d : Demuxer) → IsSound d → IsSound (act_all more d)
unfolding act_all
act_all-IsSound [] d v = v
act_all-IsSound (a ∷ more) d v = act_all-IsSound more (act a d) (act-IsSound a d v)

pub new-IsSound : IsSound new_channel_demuxer
new-IsSound = record { once = λ c. omega arith; fresh = λ c h. refl }

same_key_join : (j k l : Key) → same_key j k ≡ true → same_key j l ≡ true → same_key k l ≡ true
unfolding same_key
same_key_join (number j) (number k) (number l) p q = ground arith
same_key_join (number j) (number k) (name l) p q = q
same_key_join (number j) (name k) l p q = cc
same_key_join (name j) (name k) (name l) p q = ground (arith, =s_iff j k, =s_iff j l, =s_iff k l)
same_key_join (name j) (name k) (number l) p q = q
same_key_join (name j) (number k) l p q = cc
same_key_join (number j) (truth k) l p q = cc
same_key_join (name j) (truth k) l p q = cc
same_key_join (truth j) (truth k) (truth l) p q = ground arith
same_key_join (truth j) (truth k) (number l) p q = q
same_key_join (truth j) (truth k) (name l) p q = q
same_key_join (truth j) (number k) l p q = cc
same_key_join (truth j) (name k) l p q = cc
same_key_join (number j) (number k) (truth l) p q = q
same_key_join (name j) (name k) (truth l) p q = q

same_key_refl : (k : Key) → same_key k k ≡ true
unfolding same_key
same_key_refl (number k) = ground arith
same_key_refl (name k) = =s_refl k
same_key_refl (truth k) = ground arith

find_call-drop_call :
    (k l : Key) (m : List (Key × ℕ))
    → same_key k l ≡ false
    → find_call l (drop_call k m) ≡ find_call l m
unfolding find_call drop_call
find_call-drop_call k l [] h = refl
find_call-drop_call k l ((j, c) ∷ m) h =
    ground (arith, find_call-drop_call k l m, same_key_join j k l)

find_call-put_call : (k : Key) (c : ℕ) (m : List (Key × ℕ)) → find_call k (put_call k c m) ≡ some c
unfolding find_call put_call
find_call-put_call k c m = rw (same_key_refl k)

find_call-put_other :
    (k l : Key) (c : ℕ) (m : List (Key × ℕ))
    → same_key k l ≡ false
    → find_call l (put_call k c m) ≡ find_call l m
unfolding find_call put_call
find_call-put_other k l c m h = rw h (find_call-drop_call k l m h)

abbrev pub OtherId : Key → Option RpcId → Type 0
OtherId l none = Unit
OtherId l (some id) = same_key (normalize_id id) l ≡ false

-- An action that has nothing to do with a key, and leaves the loop running.
abbrev pub LeavesAlone : Key → Action → Type 0
LeavesAlone l (begins id) = same_key (normalize_id id) l ≡ false
LeavesAlone l (withdraws id) = same_key (normalize_id id) l ≡ false
LeavesAlone l (receives invalid) = Unit
LeavesAlone l (receives failed) = ⊥
LeavesAlone l (receives ended) = ⊥
LeavesAlone l (receives (message msg)) = OtherId l msg.id

abbrev pub AllLeaveAlone : Key → List Action → Type 0
AllLeaveAlone l [] = Unit
AllLeaveAlone l (a ∷ more) = LeavesAlone l a × AllLeaveAlone l more

-- The call is registered under the key, and the loop runs.
abbrev Waits : Key → ℕ → Demuxer → Type 0
Waits l c d = (find_call l d.pending ≡ some c) × (d.done ≡ false)

found-Waits :
    (k l : Key) (msg : RpcMessage) (c : ℕ) (d : Demuxer) (o : Option ℕ)
    → same_key k l ≡ false
    → Waits l c d
    → Waits l c (route_found k msg d o)
unfolding route_found
found-Waits k l msg c d none h w = w
found-Waits k l msg c d (some x) h w = (find_call-drop_call k l d.pending h ∙ w.0, w.1)

parsed-Waits :
    (l : Key) (c : ℕ) (msg : RpcMessage) (d : Demuxer) (o : Option RpcId)
    → OtherId l o
    → Waits l c d
    → Waits l c (receive_parsed msg d o).0
unfolding receive_parsed route_response
parsed-Waits l c msg d none h w =
    if_cases (λ (r : Demuxer × List Upcall). Waits l c r.0) (msg.method =s "") _ _ w w
parsed-Waits l c msg d (some id) h w =
    if_cases (λ (r : Demuxer × List Upcall). Waits l c r.0) (msg.method =s "") _ _
      (found-Waits (normalize_id id) l msg c d (find_call (normalize_id id) d.pending) h w) w

act-Waits :
    (l : Key) (c : ℕ) (a : Action) (d : Demuxer)
    → LeavesAlone l a
    → Waits l c d
    → Waits l c (act a d)
unfolding act call_begin call_withdraw receive
act-Waits l c (begins id) d h w =
    (find_call-put_other (normalize_id id) l d.next d.pending h ∙ w.0, w.1)
act-Waits l c (withdraws id) d h w =
    (find_call-drop_call (normalize_id id) l d.pending h ∙ w.0, w.1)
act-Waits l c (receives invalid) d h w = if_cases (Waits l c) d.done _ _ w w
act-Waits l c (receives failed) d h w = absurd h
act-Waits l c (receives ended) d h w = absurd h
act-Waits l c (receives (message msg)) d h w =
    if_cases (Waits l c) d.done _ _ w (parsed-Waits l c msg d msg.id h w)

begin-Waits :
    (id : RpcId) (d : Demuxer) → d.done ≡ false → Waits (normalize_id id) d.next (act (begins id) d)
unfolding act call_begin
begin-Waits id d r = (find_call-put_call (normalize_id id) d.next d.pending, r)

act_all-Waits :
    (l : Key) (c : ℕ) (more : List Action) (d : Demuxer)
    → AllLeaveAlone l more
    → Waits l c d
    → Waits l c (act_all more d)
unfolding act_all
act_all-Waits l c [] d h w = w
act_all-Waits l c (a ∷ more) d h w = act_all-Waits l c more (act a d) h.1 (act-Waits l c a d h.0 w)

same_key_sym : (j k : Key) → same_key j k ≡ same_key k j
same_key_sym j k =
    ground (arith, same_key_join j k j, same_key_join k j k, same_key_refl j, same_key_refl k)

find_call-same_key :
    (k l : Key) (m : List (Key × ℕ)) → same_key k l ≡ true → find_call k m ≡ find_call l m
unfolding find_call
find_call-same_key k l [] h = refl
find_call-same_key k l ((j, c) ∷ m) h = ground (
  arith,
  same_key_join k l j,
  same_key_join l k j,
  same_key_sym k l,
  same_key_sym j k,
  same_key_sym j l,
  find_call-same_key k l m,
)

-- A response that is registered is sent on its channel.
receive-sent :
    (id : RpcId) (body : String) (c : ℕ) (d : Demuxer)
    → find_call (normalize_id id) d.pending ≡ some c
    → d.done ≡ false
    → let reply : RpcMessage = record { id = some id; method = ""; body = body } in
      (act (receives (message reply)) d).sent ≡ d.sent ++ ((c, reply) ∷ [])
unfolding act receive receive_parsed route_response route_found
receive-sent id body c d f r = rw (r, =s_refl "", f) refl

-- A response finds the call that began with its id: after the call begins on a running loop, and any
-- actions that have nothing to do with the id and leave the loop running, a response with that id, as
-- a number of whatever type, is sent on the call's channel.
pub act-begins :
    (id reply_id : RpcId) (body : String) (more : List Action) (d : Demuxer)
    → d.done ≡ false
    → same_key (normalize_id reply_id) (normalize_id id) ≡ true
    → AllLeaveAlone (normalize_id id) more
    → let reply : RpcMessage = record { id = some reply_id; method = ""; body = body } in
      let before = act_all more (act (begins id) d) in
      (act (receives (message reply)) before).sent ≡ before.sent ++ ((d.next, reply) ∷ [])
act-begins id reply_id body more d r s h =
    let w =
      act_all-Waits (normalize_id id) d.next more (act (begins id) d) h (begin-Waits id d r) in
    receive-sent reply_id body d.next (act_all more (act (begins id) d))
      (find_call-same_key (normalize_id reply_id) (normalize_id id) _ s ∙ w.0) w.1
