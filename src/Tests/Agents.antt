-- ===== src/Tests/Agents.antt =====
-- A conversation of the agent at concrete inputs.
use aegisvm.Base.{
  ℕ, ◌+◌, length, same_text, decimal, byte_length, refl, List, [], ◌∷◌, none, true, false, codes,
  ◌=s◌, arith,
}
use aegisvm.Agent.Session.{
  Turn, text, blocks, Session, assemble_context, expected_ids, all_present, has_answer,
}
use aegisvm.Agent.Session.Chains.{IsComplete, assemble_context-IsComplete}
use aegisvm.Agent.Memories.Search.{recall}
use aegisvm.Agent.Memories.{
  MemoryEntry, MemoryIo, MemoryRequest, Memories, remember, forget, new_memory_store, load,
  reload_if_changed, prune_oldest, loaded_entries, others, knows, rewrite_file, next_after,
}
use aegisvm.Agent.Memories.Mirror.{
  IsKept, MemoryOp, remembers, forgets, recalls, restarts, do_op, do_ops, StayShort, do_ops-IsKept,
}

abbrev question : Turn
question = record { role = "user"; content = text "hi"; ts = ""; user = ""; tool_call_id = "" }

abbrev tool_call : Turn
tool_call = record {
  role = "assistant";
  content = blocks 40 (record { type = "tool_use"; id = "t1" } ∷ []);
  ts = "";
  user = "";
  tool_call_id = "";
}

abbrev tool_result : Turn
tool_result = record { role = "tool"; content = text "ok"; ts = ""; user = ""; tool_call_id = "t1" }

abbrev talk : Session
talk = record {
  key = "chat";
  turns = question ∷ tool_call ∷ tool_result ∷ question ∷ tool_call ∷ [];
  written = [];
}

assemble_context-IsComplete_example : IsComplete (assemble_context 4 100 talk)
assemble_context-IsComplete_example = assemble_context-IsComplete 4 100 talk

answered : IsComplete (question ∷ tool_call ∷ tool_result ∷ [])
unfolding all_present expected_ids has_answer ◌=s◌
answered = (refl, (refl, (refl, tt)))

abbrev works : MemoryIo
works = record { rewrites = true; opens = true; rewritten_at = 5; appended_at = 6 }

abbrev fact : MemoryRequest
fact = record { text = codes "the port is 80"; tags = []; scope = []; secret = false; now = "" }

abbrev no_memories : Memories
no_memories = record {
  store = record { entries = []; next_id = 0; mtime = 0; max_total = 1 };
  file = none;
}

no_memories-IsKept : IsKept no_memories
no_memories-IsKept = record { synced = refl; named = tt; few = omega arith }

abbrev day : List MemoryOp
day =
    remembers works fact
    ∷ remembers works fact
    ∷ restarts
    ∷ recalls (codes "port") []
    ∷ forgets works (codes "m-1")
    ∷ []

-- The length of a line without escapes, scope and time.
abbrev line_size : MemoryEntry → ℕ
line_size e = 60 + length e.text

day-StayShort : StayShort line_size day no_memories
unfolding do_op remember forget recall new_memory_store load reload_if_changed prune_oldest
    loaded_entries others knows rewrite_file same_text next_after decimal byte_length
day-StayShort = (tt, ((refl, tt), ((refl, tt), ((refl, tt), ((refl, tt), tt)))))

do_ops-IsKept_example : IsKept (do_ops line_size day no_memories)
do_ops-IsKept_example =
    do_ops-IsKept line_size day no_memories ((refl, refl), ((refl, refl), (tt, (tt, (refl, tt)))))
      day-StayShort no_memories-IsKept
