-- ===== src/Files/Paths.antt =====
-- What the program uses of Go's path/filepath. A path that `filepath.Clean` returned is kept as
-- its elements, the innermost first. Paths are texts of code points.
pub mod Below
use aegisvm.Base.{
  ℕ, List, [], ◌∷◌, ◌++◌, Bool, true, false, not, ◌&&◌, ◌||◌, ◌==◌, if◌then◌else◌, split, same_text,
}

pub record FilePath : Type 0 where
  -- Whether it begins with a slash.
  pub rooted : Bool
  pub up : List (List ℕ)

abbrev pub dot : List ℕ
dot = b'.' ∷ []

abbrev pub dot_dot : List ℕ
dot_dot = b'.' ∷ b'.' ∷ []

-- `strings.HasPrefix`
unfoldable pub has_prefix : List ℕ → List ℕ → Bool
has_prefix [] t = true
has_prefix (a ∷ p) [] = false
has_prefix (a ∷ p) (b ∷ t) = if a == b then has_prefix p t else false

-- `strings.HasSuffix`
unfoldable pub has_suffix : List ℕ → List ℕ → Bool
has_suffix p [] = same_text [] p
has_suffix p (c ∷ t) = same_text (c ∷ t) p || has_suffix p t

-- `strings.TrimSuffix`
unfoldable pub trim_suffix : List ℕ → List ℕ → List ℕ
trim_suffix p [] = []
trim_suffix p (c ∷ t) = let rest = trim_suffix p t in if same_text (c ∷ t) p then [] else c ∷ rest

-- `..` goes up, except from the root and from above the start.
unfoldable pub step_up : Bool → List (List ℕ) → List (List ℕ)
step_up rooted [] = if rooted then [] else dot_dot ∷ []
step_up rooted (p ∷ up) = if same_text p dot_dot then dot_dot ∷ p ∷ up else up

-- One more element, as `filepath.Clean` reads it.
unfoldable pub push : Bool → List ℕ → List (List ℕ) → List (List ℕ)
unfolding step_up
push rooted p up =
    if same_text p [] || same_text p dot
    then up
    else if same_text p dot_dot
    then step_up rooted up
    else p ∷ up

unfoldable pub clean_from : Bool → List (List ℕ) → List (List ℕ) → List (List ℕ)
unfolding push
clean_from rooted up [] = up
clean_from rooted up (p ∷ ps) = clean_from rooted (push rooted p up) ps

abbrev pub starts_rooted : List ℕ → Bool
starts_rooted [] = false
starts_rooted (c ∷ cs) = c == b'/'

-- `filepath.Clean`
unfoldable pub clean : List ℕ → FilePath
unfolding clean_from
clean t = record { rooted = starts_rooted t; up = clean_from (starts_rooted t) [] (split b'/' t) }

unfoldable pub onto : Bool → List (List ℕ) → List (List ℕ) → List (List ℕ)
unfolding push
onto rooted base [] = base
onto rooted base (p ∷ up) = push rooted p (onto rooted base up)

-- `filepath.Join` of two clean paths, of which the first is not empty
unfoldable pub join : FilePath → FilePath → FilePath
unfolding onto
join a b = record { rooted = a.rooted; up = onto a.rooted a.up b.up }

-- `filepath.Join` of a clean path and a name without a slash
unfoldable pub join_name : FilePath → List ℕ → FilePath
unfolding push
join_name a name = record { rooted = a.rooted; up = push a.rooted name a.up }

unfoldable pub relative_text : List (List ℕ) → List ℕ
relative_text [] = dot
relative_text (p ∷ []) = p
relative_text (p ∷ q ∷ up) = relative_text (q ∷ up) ++ (b'/' ∷ p)

abbrev rooted_text : List (List ℕ) → List ℕ
rooted_text [] = b'/' ∷ []
rooted_text (p ∷ up) = b'/' ∷ relative_text (p ∷ up)

-- The path as text.
unfoldable pub text_of : FilePath → List ℕ
unfolding relative_text
text_of p = if p.rooted then rooted_text p.up else relative_text p.up

abbrev base_of : Bool → List (List ℕ) → List ℕ
base_of rooted [] = if rooted then b'/' ∷ [] else dot
base_of rooted (p ∷ up) = p

-- `filepath.Base` of a clean path
unfoldable pub base_name : FilePath → List ℕ
base_name p = base_of p.rooted p.up

abbrev tail_of : List (List ℕ) → List (List ℕ)
tail_of [] = []
tail_of (p ∷ up) = up

-- `filepath.Dir` of a clean path
unfoldable pub directory : FilePath → FilePath
directory p = record p { up = tail_of p.up }

-- `filepath.Join` of a clean path and any text
unfoldable pub join_text : FilePath → List ℕ → FilePath
unfolding clean_from
join_text a t = record { rooted = a.rooted; up = clean_from a.rooted a.up (split b'/' t) }

abbrev same_parts : List (List ℕ) → List (List ℕ) → Bool
same_parts [] [] = true
same_parts (p ∷ up) (q ∷ vs) = if same_text p q then same_parts up vs else false
same_parts [] (q ∷ vs) = false
same_parts (p ∷ up) [] = false

-- `==` on clean paths
unfoldable pub same_path : FilePath → FilePath → Bool
same_path a b = (if a.rooted then b.rooted else not b.rooted) && same_parts a.up b.up
