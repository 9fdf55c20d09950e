-- ===== src/Cron/Meaning.antt =====
-- What an expression of internal/cron/cron.go means: the sets that `Parse` builds against a direct
-- reading of the text.
use aegisvm.Base.{
  ℕ, ◌≤◌, ◌≡◌, refl, List, [], ◌∷◌, Option, none, some, String, ℤ, pos, Bool, true, false, ◌&&◌,
  if◌then◌else◌, All, arith, codes, fields, split,
}
use aegisvm.Cron.{
  Schedule, Moment, FieldSpec, minute_spec, hour_spec, dom_spec, month_spec, dow_spec, contains,
  add_unseen, sort_ints, collected, parse_bounds, parse_item, parse_items, parse_field, parse_parts,
  schedule, parse, matches,
}
use aegisvm.Cron.Values.{admits, IsSmall, IsWithin, parse_item-Spans}
use aegisvm.Cron.Sets.{
  IsStrict, IsUnique, add_unseen-IsUnique, contains-add_unseen, All-add_unseen, All-sort_ints,
  contains-sort_ints, sort_ints-IsStrict,
}

-- A field read item by item: whether one of them admits the value.
abbrev pub any_admits : FieldSpec → List (List ℕ) → ℕ → Bool
any_admits spec [] v = false
any_admits spec (item ∷ items) v =
    if admits (parse_bounds spec item) v then true else any_admits spec items v

-- A set of values that stands for the field.
pub record Denotes (spec : FieldSpec) (items : List (List ℕ)) (result vs : List ℤ) : Type 0 where
  pub strict : IsStrict vs
  pub within : IsWithin spec vs
  pub members :
      (v : ℕ)
      → contains vs (pos v) ≡ (if contains result (pos v) then true else any_admits spec items v)

abbrev pub SmallItems : FieldSpec → List (List ℕ) → Type 0
SmallItems spec items = All (λ item. IsSmall (parse_bounds spec item)) items

collected-Denotes :
    (spec : FieldSpec) (item : List ℕ) (items : List (List ℕ)) (result vs : List ℤ)
    (o : Option (List ℤ))
    → parse_item spec item ≡ o
    → spec.greatest ≤ 1000
    → IsSmall (parse_bounds spec item)
    → IsUnique result
    → IsWithin spec result
    → ((ws : List ℤ)
        → IsUnique ws
        → IsWithin spec ws
        → parse_items spec items ws ≡ some vs
        → Denotes spec items ws vs)
    → collected (parse_items spec items) result o ≡ some vs
    → Denotes spec (item ∷ items) result vs
collected-Denotes spec item items result vs none e g k u w ih h = cc
collected-Denotes spec item items result vs (some ws) e g k u w ih h =
    let (members, within) = parse_item-Spans spec item ws g k e in
    let rest =
      ih (add_unseen result ws) (add_unseen-IsUnique result ws u)
        (All-add_unseen _ result ws w within) h in
    record {
      strict = rest.strict;
      within = rest.within;
      members =
          λ v. ground (arith, rest.members v, contains-add_unseen result ws (pos v), members v);
    }

pub parse_items-Denotes :
    (spec : FieldSpec) (items : List (List ℕ)) (result vs : List ℤ)
    → spec.greatest ≤ 1000
    → SmallItems spec items
    → IsUnique result
    → IsWithin spec result
    → parse_items spec items result ≡ some vs
    → Denotes spec items result vs
unfolding parse_items
parse_items-Denotes spec [] result vs g k u w h =
    let same : vs ≡ sort_ints result = ground arith in
    rw same (record {
      strict = sort_ints-IsStrict result u;
      within = All-sort_ints _ result w;
      members = λ v. ground (arith, contains-sort_ints result (pos v));
    })
parse_items-Denotes spec (item ∷ items) result vs g k u w h =
    collected-Denotes spec item items result vs (parse_item spec item) refl g k.0 u w
      (λ ws u' w'. parse_items-Denotes spec items ws vs g k.1 u' w') h

-- The set that a field denotes.
abbrev pub FieldSet : FieldSpec → List ℕ → List ℤ → Type 0
FieldSet spec field vs = Denotes spec (split b',' field) [] vs

parse_field-FieldSet :
    (spec : FieldSpec) (field : List ℕ) (vs : List ℤ)
    → spec.greatest ≤ 1000
    → SmallItems spec (split b',' field)
    → parse_field spec field ≡ some vs
    → FieldSet spec field vs
unfolding parse_field
parse_field-FieldSet spec field vs g k h =
    parse_items-Denotes spec (split b',' field) [] vs g k tt tt h

-- No step of the five fields is large enough to wrap around.
abbrev pub SmallParts : List (List ℕ) → Type 0
SmallParts (a ∷ b ∷ c ∷ d ∷ e ∷ []) =
    SmallItems minute_spec (split b',' a)
    × SmallItems hour_spec (split b',' b)
    × SmallItems dom_spec (split b',' c)
    × SmallItems month_spec (split b',' d)
    × SmallItems dow_spec (split b',' e)
SmallParts _ = Unit

-- The five fields read directly.
abbrev pub parts_admit : List (List ℕ) → Moment → Bool
parts_admit (a ∷ b ∷ c ∷ d ∷ e ∷ []) t =
    any_admits minute_spec (split b',' a) t.minute
    && any_admits hour_spec (split b',' b) t.hour
    && any_admits dom_spec (split b',' c) t.day
    && any_admits month_spec (split b',' d) t.month
    && any_admits dow_spec (split b',' e) t.weekday
parts_admit _ t = false

abbrev PartSets : List (List ℕ) → Schedule → Type 0
PartSets (a ∷ b ∷ c ∷ d ∷ e ∷ []) s =
    FieldSet minute_spec a s.minute
    × FieldSet hour_spec b s.hour
    × FieldSet dom_spec c s.dom
    × FieldSet month_spec d s.month
    × FieldSet dow_spec e s.dow
PartSets _ s = ⊥

-- The parts of a schedule that was put together.
schedule_parts :
    (a b c d e : Option (List ℤ)) (s : Schedule)
    → schedule a b c d e ≡ some s
    → (a ≡ some s.minute)
      × (b ≡ some s.hour)
      × (c ≡ some s.dom)
      × (d ≡ some s.month)
      × (e ≡ some s.dow)
schedule_parts a b c d e s h = ground arith

parse_parts-PartSets :
    (ps : List (List ℕ)) (s : Schedule) → SmallParts ps → parse_parts ps ≡ some s → PartSets ps s
unfolding parse_parts
parse_parts-PartSets (a ∷ b ∷ c ∷ d ∷ e ∷ []) s k h =
    let (p, q, r, t, u) = schedule_parts _ _ _ _ _ s h in
    (
      parse_field-FieldSet minute_spec a s.minute (omega arith) k.0 p,
      parse_field-FieldSet hour_spec b s.hour (omega arith) k.1 q,
      parse_field-FieldSet dom_spec c s.dom (omega arith) k.2 r,
      parse_field-FieldSet month_spec d s.month (omega arith) k.3 t,
      parse_field-FieldSet dow_spec e s.dow (omega arith) k.4 u,
    )
parse_parts-PartSets [] s k h = cc
parse_parts-PartSets (a ∷ []) s k h = cc
parse_parts-PartSets (a ∷ b ∷ []) s k h = cc
parse_parts-PartSets (a ∷ b ∷ c ∷ []) s k h = cc
parse_parts-PartSets (a ∷ b ∷ c ∷ d ∷ []) s k h = cc
parse_parts-PartSets (a ∷ b ∷ c ∷ d ∷ e ∷ f ∷ ps) s k h = cc

-- A set of values of the field, each once and in rising order.
abbrev pub IsFieldSet : FieldSpec → List ℤ → Type 0
IsFieldSet spec vs = IsStrict vs × IsWithin spec vs

pub record IsSchedule (s : Schedule) : Type 0 where
  pub minute : IsFieldSet minute_spec s.minute
  pub hour : IsFieldSet hour_spec s.hour
  pub dom : IsFieldSet dom_spec s.dom
  pub month : IsFieldSet month_spec s.month
  pub dow : IsFieldSet dow_spec s.dow

PartSets-IsSchedule : (ps : List (List ℕ)) (s : Schedule) → PartSets ps s → IsSchedule s
PartSets-IsSchedule (a ∷ b ∷ c ∷ d ∷ e ∷ []) s (p, q, r, t, u) = record {
  minute = (p.strict, p.within);
  hour = (q.strict, q.within);
  dom = (r.strict, r.within);
  month = (t.strict, t.within);
  dow = (u.strict, u.within);
}
PartSets-IsSchedule [] s h = absurd h
PartSets-IsSchedule (a ∷ []) s h = absurd h
PartSets-IsSchedule (a ∷ b ∷ []) s h = absurd h
PartSets-IsSchedule (a ∷ b ∷ c ∷ []) s h = absurd h
PartSets-IsSchedule (a ∷ b ∷ c ∷ d ∷ []) s h = absurd h
PartSets-IsSchedule (a ∷ b ∷ c ∷ d ∷ e ∷ f ∷ ps) s h = absurd h

matches-PartSets :
    (ps : List (List ℕ)) (s : Schedule) (t : Moment)
    → PartSets ps s
    → matches s t ≡ parts_admit ps t
unfolding matches contains
matches-PartSets (a ∷ b ∷ c ∷ d ∷ e ∷ []) s t (p, q, r, u, w) = ground (
  arith,
  p.members t.minute,
  q.members t.hour,
  r.members t.day,
  u.members t.month,
  w.members t.weekday,
)
matches-PartSets [] s t h = absurd h
matches-PartSets (a ∷ []) s t h = absurd h
matches-PartSets (a ∷ b ∷ []) s t h = absurd h
matches-PartSets (a ∷ b ∷ c ∷ []) s t h = absurd h
matches-PartSets (a ∷ b ∷ c ∷ d ∷ []) s t h = absurd h
matches-PartSets (a ∷ b ∷ c ∷ d ∷ e ∷ f ∷ ps) s t h = absurd h

-- Where no step is larger than 2^62, an expression that parses gives five sets of values, each in
-- strictly rising order and within the range of its field.
pub parse-IsSchedule :
    (expr : String) (s : Schedule)
    → SmallParts (fields (codes expr))
    → parse expr ≡ some s
    → IsSchedule s
unfolding parse
parse-IsSchedule expr s k h =
    PartSets-IsSchedule (fields (codes expr)) s (parse_parts-PartSets (fields (codes expr)) s k h)

-- Where no step is larger than 2^62, the schedule of an expression matches a moment just when each of
-- the five fields has an item that admits the moment's part: its range holds the part, and the step
-- divides the part's distance from the range's start.
pub matches-parse :
    (expr : String) (s : Schedule) (t : Moment)
    → SmallParts (fields (codes expr))
    → parse expr ≡ some s
    → matches s t ≡ parts_admit (fields (codes expr)) t
unfolding parse
matches-parse expr s t k h =
    matches-PartSets (fields (codes expr)) s t (parse_parts-PartSets (fields (codes expr)) s k h)
