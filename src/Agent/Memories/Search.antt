-- ===== src/Agent/Memories/Search.antt =====
-- `Search` of cmd/aegis-agent/memory.go.
use aegisvm.Base.{
  ℕ, ◌+◌, List, [], ◌∷◌, reverse, Bool, true, false, ◌&&◌, leb, ◌==◌, if◌then◌else◌, take, select,
  same_text,
}
use aegisvm.Agent.Memories.{MemoryEntry, Memories, has_text, reload_if_changed}

abbrev lower : List ℕ → List ℕ
lower [] = []
lower (c ∷ cs) = (if leb b'A' c && leb c b'Z' then c + 32 else c) ∷ lower cs

starts : List ℕ → List ℕ → Bool
starts [] s = true
starts (c ∷ cs) [] = false
starts (c ∷ cs) (d ∷ ds) = if c == d then starts cs ds else false

-- `strings.Contains`
occurs : List ℕ → List ℕ → Bool
unfolding starts
occurs q [] = starts q []
occurs q (c ∷ cs) = if starts q (c ∷ cs) then true else occurs q cs

has_tag : List ℕ → List (List ℕ) → Bool
has_tag tag [] = false
has_tag tag (t ∷ ts) = if same_text (lower t) (lower tag) then true else has_tag tag ts

unfoldable pub fits : List ℕ → List ℕ → MemoryEntry → Bool
unfolding occurs has_tag
fits query tag e =
    (if has_text query then occurs (lower query) (lower e.text) else true)
    && (if has_text tag then has_tag tag e.tags else true)

-- `Search`: the newest 20 that fit, newest first.
unfoldable pub recall : (MemoryEntry → ℕ) → List ℕ → List ℕ → Memories → Memories × List MemoryEntry
recall size query tag m =
    let m' = reload_if_changed size m in
    (m', take 20 (select (fits query tag) (reverse m'.store.entries)))
