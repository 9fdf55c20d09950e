-- ===== src/Cron.antt =====
-- internal/cron/cron.go: expressions of five fields, parsed to sets of values and matched with times.
-- Errors are `none`. A text is its list of code points; every separator is ASCII.
pub mod Expansion
pub mod Items
pub mod Values
pub mod Sets
pub mod Meaning
use aegisvm.Base.{
  ℕ, zero, suc, ◌+◌, List, [], ◌∷◌, ◌++◌, Option, none, some, String, ℤ, pos, ◌+ℤ◌, ◌-ℤ◌, ltb_ℤ,
  leb_ℤ, eqb_ℤ, Bool, true, false, ◌&&◌, ◌||◌, if◌then◌else◌, codes, fields, split, cut, atoi,
  max_int, ◌==◌,
}

pub record Schedule : Type 0 where
  pub minute : List ℤ
  pub hour : List ℤ
  pub dom : List ℤ
  pub month : List ℤ
  pub dow : List ℤ

pub record FieldSpec : Type 0 where
  pub least : ℕ
  pub greatest : ℕ

abbrev pub minute_spec : FieldSpec
minute_spec = record { least = 0; greatest = 59 }

abbrev pub hour_spec : FieldSpec
hour_spec = record { least = 0; greatest = 23 }

abbrev pub dom_spec : FieldSpec
dom_spec = record { least = 1; greatest = 31 }

abbrev pub month_spec : FieldSpec
month_spec = record { least = 1; greatest = 12 }

abbrev pub dow_spec : FieldSpec
dow_spec = record { least = 0; greatest = 6 }

-- The fields of a `time.Time`.
pub record Moment : Type 0 where
  pub minute : ℕ
  pub hour : ℕ
  pub day : ℕ
  pub month : ℕ
  pub weekday : ℕ

-- What an item says before it is expanded.
pub record Progression : Type 0 where
  pub start : ℤ
  pub end : ℤ
  pub step : ℤ

checked_step : List ℕ → Option ℤ → Option (List ℕ × ℤ)
checked_step item none = none
checked_step item (some s) = if leb_ℤ s (pos 0) then none else some (item, s)

stepped : List ℕ → Option (List ℕ × List ℕ) → Option (List ℕ × ℤ)
unfolding checked_step
stepped item none = some (item, pos 1)
stepped item (some (before, after)) = checked_step before (atoi after)

-- The item without its step, and the step, 1 by default.
unfoldable pub split_step : List ℕ → Option (List ℕ × ℤ)
unfolding stepped
split_step item = stepped item (cut b'/' item)

range : Option ℤ → Option ℤ → ℤ → Option Progression
range none _ step = none
range (some a) none step = none
range (some a) (some b) step =
    if ltb_ℤ b a then none else some (record { start = a; end = b; step = step })

single : FieldSpec → Option ℤ → ℤ → Option Progression
single spec none step = none
single spec (some n) step =
    some
      (record { start = n; end = if ltb_ℤ (pos 1) step then pos spec.greatest else n; step = step })

dashed : FieldSpec → List ℕ → ℤ → Option (List ℕ × List ℕ) → Option Progression
unfolding range single
dashed spec item step none = single spec (atoi item) step
dashed spec item step (some (a, b)) = range (atoi a) (atoi b) step

is_star : List ℕ → Bool
is_star [] = false
is_star (c ∷ []) = c == b'*'
is_star (c ∷ d ∷ cs) = false

-- The switch on the form of an item.
bounds : FieldSpec → List ℕ × ℤ → Option Progression
unfolding dashed is_star
bounds spec (item, step) =
    if is_star item
    then some (record { start = pos spec.least; end = pos spec.greatest; step = step })
    else dashed spec item step (cut b'-' item)

abbrev outside : FieldSpec → ℤ → Bool
outside spec v = ltb_ℤ v (pos spec.least) || ltb_ℤ (pos spec.greatest) v

validated : FieldSpec → Option Progression → Option Progression
validated spec none = none
validated spec (some p) =
    if outside spec p.start then none else if outside spec p.end then none else some p

with_step : FieldSpec → Option (List ℕ × ℤ) → Option Progression
unfolding bounds validated
with_step spec none = none
with_step spec (some s) = validated spec (bounds spec s)

-- `parseItem` up to its loop.
unfoldable pub parse_bounds : FieldSpec → List ℕ → Option Progression
unfolding with_step
parse_bounds spec item = with_step spec (split_step item)

-- A sum of two ints, 64 bits wide.
unfoldable pub wrap_int : ℤ → ℤ
wrap_int z =
    if ltb_ℤ (pos max_int) z
    then z -ℤ pos 18446744073709551616
    else if ltb_ℤ z (pos 0 -ℤ pos 9223372036854775808)
    then z +ℤ pos 18446744073709551616
    else z

abbrev and_value : ℤ → Option (List ℤ) → Option (List ℤ)
and_value v none = none
and_value v (some vs) = some (v ∷ vs)

-- The loop of `parseItem`; `none` is the end of the fuel.
unfoldable pub expand : ℕ → ℤ → ℤ → ℤ → Option (List ℤ)
expand zero i end step = none
expand (suc fuel) i end step =
    let rest = expand fuel (wrap_int (i +ℤ step)) end step in
    if leb_ℤ i end then and_value i rest else some []

-- The fuel is four rounds more than the field's greatest value.
abbrev expanded : FieldSpec → Option Progression → Option (List ℤ)
expanded spec none = none
expanded spec (some p) = expand (spec.greatest + 4) p.start p.end p.step

unfoldable pub parse_item : FieldSpec → List ℕ → Option (List ℤ)
parse_item spec item = expanded spec (parse_bounds spec item)

unfoldable pub contains : List ℤ → ℤ → Bool
contains [] v = false
contains (x ∷ xs) v = if eqb_ℤ x v then true else contains xs v

-- The inner loop of `parseField`; `seen` holds the values of the result.
unfoldable pub add_unseen : List ℤ → List ℤ → List ℤ
add_unseen result [] = result
add_unseen result (v ∷ vs) =
    add_unseen (if contains result v then result else result ++ (v ∷ [])) vs

-- `sort.Ints`
unfoldable pub insert_int : ℤ → List ℤ → List ℤ
insert_int v [] = v ∷ []
insert_int v (x ∷ xs) = let rest = insert_int v xs in if leb_ℤ v x then v ∷ x ∷ xs else x ∷ rest

unfoldable pub sort_ints : List ℤ → List ℤ
unfolding insert_int
sort_ints [] = []
sort_ints (x ∷ xs) = insert_int x (sort_ints xs)

abbrev collected : (List ℤ → Option (List ℤ)) → List ℤ → Option (List ℤ) → Option (List ℤ)
collected rest result none = none
collected rest result (some vs) = rest (add_unseen result vs)

-- The outer loop of `parseField`.
unfoldable pub parse_items : FieldSpec → List (List ℕ) → List ℤ → Option (List ℤ)
parse_items spec [] result = some (sort_ints result)
parse_items spec (item ∷ items) result =
    collected (parse_items spec items) result (parse_item spec item)

unfoldable pub parse_field : FieldSpec → List ℕ → Option (List ℤ)
parse_field spec field = parse_items spec (split b',' field) []

abbrev schedule :
    Option (List ℤ)
    → Option (List ℤ)
    → Option (List ℤ)
    → Option (List ℤ)
    → Option (List ℤ)
    → Option Schedule
schedule (some a) (some b) (some c) (some d) (some e) =
    some (record { minute = a; hour = b; dom = c; month = d; dow = e })
schedule _ _ _ _ _ = none

parse_parts : List (List ℕ) → Option Schedule
parse_parts (a ∷ b ∷ c ∷ d ∷ e ∷ []) =
    schedule (parse_field minute_spec a) (parse_field hour_spec b) (parse_field dom_spec c)
      (parse_field month_spec d) (parse_field dow_spec e)
parse_parts _ = none

unfoldable pub parse : String → Option Schedule
unfolding parse_parts
parse expr = parse_parts (fields (codes expr))

unfoldable pub matches : Schedule → Moment → Bool
matches s t =
    contains s.minute (pos t.minute)
    && contains s.hour (pos t.hour)
    && contains s.dom (pos t.day)
    && contains s.month (pos t.month)
    && contains s.dow (pos t.weekday)
