-- ===== src/Agent/Session.antt =====
-- cmd/aegis-agent/session.go: the turns of a conversation, and the window of them that a model is
-- given. The content of a turn is what `parseContentBlocks` makes of its JSON, with the length of
-- that JSON.
pub mod Window
pub mod Chains
use Prim.Native.String
use aegisvm.Base.{
  ℕ, zero, suc, ◌+◌, ◌*◌, List, [], ◌∷◌, ◌++◌, map, reverse, Option, none, some, String, Bool, true,
  false, not, ◌&&◌, ◌||◌, ltb, leb, if◌then◌else◌, ◌=s◌, length, codes, byte_length,
}

pub record Block : Type 0 where
  pub type : String
  -- Empty where the block has no such text.
  pub id : String

-- A text, a list of blocks, or another JSON value; `size` is the length of the JSON.
pub data Content : Type 0 where
  text : String → Content
  blocks : ℕ → List Block → Content
  other : ℕ → Content

pub record Turn : Type 0 where
  pub role : String
  pub content : Content
  pub ts : String
  pub user : String
  pub tool_call_id : String

pub record Session : Type 0 where
  pub key : String
  pub turns : List Turn
  -- The lines of the file that are turns.
  pub written : List Turn

abbrev images : List Block → ℕ
images [] = 0
images (b ∷ bs) = (if b.type =s "image" then 1 else 0) + images bs

content_size : Content → ℕ
content_size (text s) = byte_length (codes s)
content_size (blocks size bs) = size + 2000 * images bs
content_size (other size) = size

unfoldable pub turn_size : Turn → ℕ
unfolding content_size
turn_size t = content_size t.content

-- `appendTurn`; `now` is the time for a turn that has none, `file_ok` whether the file opens.
unfoldable pub append_turn : String → Bool → Turn → Session → Session
append_turn now file_ok turn s =
    let stamped : Turn = record turn { ts = if turn.ts =s "" then now else turn.ts } in
    record s {
      turns = s.turns ++ (stamped ∷ []);
      written = if file_ok then s.written ++ (stamped ∷ []) else s.written;
    }

abbrev with_turn : Option Turn → List Turn → List Turn
with_turn none ts = ts
with_turn (some t) ts = t ∷ ts

unfoldable pub lines_written : List (ℕ × Option Turn) → List Turn
lines_written [] = []
lines_written ((size, t) ∷ lines) = with_turn t (lines_written lines)

-- The loop of `loadFromDisk`: a line that the buffer does not hold ends it.
unfoldable pub scanned_turns : List (ℕ × Option Turn) → List Turn
scanned_turns [] = []
scanned_turns ((size, t) ∷ lines) =
    let rest = scanned_turns lines in if ltb size 262144 then with_turn t rest else []

-- `loadFromDisk` of a session that was just made: the lines, each with its length and the turn that it
-- parses to, if it does.
unfoldable pub load_from_disk : String → List (ℕ × Option Turn) → Session
unfolding scanned_turns lines_written
load_from_disk key lines = record {
  key = key;
  turns = scanned_turns lines;
  written = lines_written lines;
}

abbrev pub is_tool : Turn → Bool
is_tool t = t.role =s "tool"

abbrev pub is_text : Content → Bool
is_text (text s) = true
is_text _ = false

-- The loop that selects turns, newest first; `selected` is oldest first.
unfoldable pub select_recent : ℕ → ℕ → ℕ → List Turn → List Turn → List Turn
select_recent max_turns max_chars total selected [] = selected
select_recent max_turns max_chars total selected (t ∷ older) =
    let rest = select_recent max_turns max_chars (total + turn_size t) (t ∷ selected) older in
    if ltb (length selected) max_turns
    then if ltb max_chars (total + turn_size t) then selected else rest
    else selected

-- The first trim: tool results at the front.
unfoldable pub trim_tools : List Turn → List Turn
trim_tools [] = []
trim_tools (t ∷ ts) = let rest = trim_tools ts in if is_tool t then rest else t ∷ ts

abbrev is_call_turn : Turn → Bool
is_call_turn t = (t.role =s "assistant") && not (is_text t.content)

-- The second trim: assistant turns that are not texts, each with the tool results after it. The flag
-- is up within such a run of tool results.
unfoldable pub trim_calls : Bool → List Turn → List Turn
trim_calls dropping [] = []
trim_calls dropping (t ∷ ts) =
    let rest = trim_calls true ts in
    if (dropping && is_tool t) || is_call_turn t then rest else t ∷ ts

block_ids : List Block → List String
block_ids [] = []
block_ids (b ∷ bs) =
    let rest = block_ids bs in
    if (b.type =s "tool_use") && not (b.id =s "") then b.id ∷ rest else rest

content_ids : Content → List String
unfolding block_ids
content_ids (text s) = []
content_ids (blocks size bs) = block_ids bs
content_ids (other size) = []

-- The tool calls that a turn expects answers to: those of an assistant turn.
unfoldable pub expected_ids : Turn → List String
unfolding content_ids
expected_ids t = if t.role =s "assistant" then content_ids t.content else []

unfoldable pub has_answer : String → List Turn → Bool
has_answer id [] = false
has_answer id (t ∷ ts) = if t.tool_call_id =s id then true else has_answer id ts

unfoldable pub all_present : List String → List Turn → Bool
unfolding has_answer
all_present [] answers = true
all_present (id ∷ ids) answers = has_answer id answers && all_present ids answers

abbrev pub is_calling : Turn → Bool
is_calling t = elim (expected_ids t) [ [] ↦ false | _ ∷ _ ↦ true ]

-- An assistant turn with calls, and the tool results after it so far.
abbrev pub Chain : Type 0
Chain = Option (Turn × List Turn)

-- A chain is kept whole or dropped whole.
unfoldable pub settle : Chain → List Turn
settle none = []
settle (some (t, answers)) = if all_present (expected_ids t) answers then t ∷ answers else []

abbrev started : Turn → Chain
started t = if is_calling t then some (t, []) else none

-- The chain after one more turn, and the turns that this turn settles.
next_chain : Chain → Turn → Chain
next_chain none u = started u
next_chain (some (t, answers)) u = if is_tool u then some (t, answers ++ (u ∷ [])) else started u

settled : Chain → Turn → List Turn
unfolding settle
settled none u = if is_calling u then [] else u ∷ []
settled (some c) u =
    if is_tool u then [] else settle (some c) ++ (if is_calling u then [] else u ∷ [])

-- The loop of `pruneIncompleteToolChains`, with the chain that is open.
unfoldable pub prune_from : Chain → List Turn → List Turn
unfolding next_chain settled settle
prune_from c [] = settle c
prune_from c (u ∷ us) = settled c u ++ prune_from (next_chain c u) us

unfoldable pub prune_incomplete_tool_chains : List Turn → List Turn
unfolding prune_from
prune_incomplete_tool_chains ts = prune_from none ts

-- `assembleContext`, as far as it chooses turns.
unfoldable pub assemble_context : ℕ → ℕ → Session → List Turn
assemble_context max_turns max_chars s =
    prune_incomplete_tool_chains
      (trim_calls false (trim_tools (select_recent max_turns max_chars 0 [] (reverse s.turns))))
