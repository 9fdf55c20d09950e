-- ===== src/Base/Texts.antt =====
-- Texts as lists of code points, with what Go's `strings` and `strconv` do on them.
use Prim.Native.Nat.{ℕ, zero, suc, ◌+◌, ◌-◌, ◌*◌, ◌/◌, ◌%◌, ◌<◌}
use Prim.Native.Char.{code}
use Prim.Native.String.{String}
use mathlib.Core.Bool.{Bool, true, false, ◌&&◌, ◌||◌}
use mathlib.Core.List.{List, [], ◌∷◌, ◌++◌}
use mathlib.Core.Logic.{◌≢◌}
use mathlib.Core.Option.{Option, none, some}
use aegisvm.Base.Tests.{ltb, leb, if_elim, ◌==◌, if◌then◌else◌}
use aegisvm.Base.Int.{ℤ, pos, ◌-ℤ◌, ◌≤ℤ◌}
use mathlib.Core.Path.{◌≡◌, refl, sym, ap, ap₂, ◌∙◌}
use native.Mathlib.Omega.{arith}

-- The code points of a text: its bytes, if it is ASCII.
abbrev pub codes : String → List ℕ
codes String.[] = []
codes (String.◌∷◌ c s) = code c ∷ codes s

-- `unicode.IsSpace`
unfoldable pub is_space : ℕ → Bool
is_space c =
    (leb 9 c && leb c 13)
    || c == 32
    || c == 0x85
    || c == 0xA0
    || c == 0x1680
    || (leb 0x2000 c && leb c 0x200A)
    || c == 0x2028
    || c == 0x2029
    || c == 0x202F
    || c == 0x205F
    || c == 0x3000

flush : List ℕ → List (List ℕ) → List (List ℕ)
flush [] ws = ws
flush (c ∷ w) ws = (c ∷ w) ∷ ws

fields_from : List ℕ → List ℕ → List (List ℕ)
unfolding is_space flush
fields_from w [] = flush w []
fields_from w (c ∷ cs) =
    let rest = fields_from (if is_space c then [] else w ++ (c ∷ [])) cs in
    if is_space c then flush w rest else rest

-- `strings.Fields`
unfoldable pub fields : List ℕ → List (List ℕ)
unfolding fields_from
fields cs = fields_from [] cs

split_from : ℕ → List ℕ → List ℕ → List (List ℕ)
split_from sep w [] = w ∷ []
split_from sep w (c ∷ cs) =
    let rest = split_from sep (if c == sep then [] else w ++ (c ∷ [])) cs in
    if c == sep then w ∷ rest else rest

-- `strings.Split` by one character
unfoldable pub split : ℕ → List ℕ → List (List ℕ)
unfolding split_from
split sep cs = split_from sep [] cs

cut_more : ℕ → Option (List ℕ × List ℕ) → Option (List ℕ × List ℕ)
cut_more c none = none
cut_more c (some (before, after)) = some (c ∷ before, after)

-- What is before and after the first `sep`: `strings.Index` with the slices at it.
unfoldable pub cut : ℕ → List ℕ → Option (List ℕ × List ℕ)
unfolding cut_more
cut sep [] = none
cut sep (c ∷ cs) = let rest = cut sep cs in if c == sep then some ([], cs) else cut_more c rest

abbrev pub max_int : ℕ
max_int = 9223372036854775807

abbrev is_digit : ℕ → Bool
is_digit c = leb b'0' c && leb c b'9'

digits : ℕ → List ℕ → Option ℕ
digits n [] = some n
digits n (c ∷ cs) = let rest = digits (10 * n + (c - b'0')) cs in if is_digit c then rest else none

unsigned : List ℕ → Option ℕ
unfolding digits
unsigned [] = none
unsigned (c ∷ cs) = digits 0 (c ∷ cs)

positive : Option ℕ → Option ℤ
positive none = none
positive (some n) = if leb n max_int then some (pos n) else none

negative : Option ℕ → Option ℤ
negative none = none
negative (some n) = if leb n (max_int + 1) then some (pos 0 -ℤ pos n) else none

-- `strconv.Atoi`, 64 bits wide
unfoldable pub atoi : List ℕ → Option ℤ
unfolding unsigned positive negative
atoi [] = none
atoi (c ∷ cs) =
    if c == b'-'
    then negative (unsigned cs)
    else if c == b'+'
    then positive (unsigned cs)
    else positive (unsigned (c ∷ cs))

positive-le : (o : Option ℕ) (z : ℤ) → positive o ≡ some z → z ≤ℤ pos max_int
unfolding positive
positive-le none z h = cc
positive-le (some n) z h = ground arith

negative-le : (o : Option ℕ) (z : ℤ) → negative o ≡ some z → z ≤ℤ pos max_int
unfolding negative
negative-le none z h = cc
negative-le (some n) z h = ground arith

pub atoi-le : (cs : List ℕ) (z : ℤ) → atoi cs ≡ some z → z ≤ℤ pos max_int
unfolding atoi
atoi-le [] z h = cc
atoi-le (c ∷ cs) z h = ground (
  arith,
  negative-le (unsigned cs) z,
  positive-le (unsigned cs) z,
  positive-le (unsigned (c ∷ cs)) z,
)

-- `len` of a text: its bytes in UTF-8.
unfoldable pub byte_length : List ℕ → ℕ
byte_length [] = 0
byte_length (c ∷ cs) =
    (if leb c 127 then 1 else if leb c 2047 then 2 else if leb c 65535 then 3 else 4)
    + byte_length cs

decimal_of : ℕ → ℕ → List ℕ
decimal_of zero n = []
decimal_of (suc fuel) n =
    let rest = decimal_of fuel (n / 10) in
    if ltb n 10 then (b'0' + n) ∷ [] else rest ++ ((b'0' + n % 10) ∷ [])

-- `%d`; one round for each unit of the number is more than it has digits.
unfoldable pub decimal : ℕ → List ℕ
unfolding decimal_of
decimal n = decimal_of (suc n) n

value : ℕ → List ℕ → ℕ
value n [] = n
value n (c ∷ cs) = value (10 * n + (c - b'0')) cs

value-snoc : (n c : ℕ) (cs : List ℕ) → value n (cs ++ (c ∷ [])) ≡ 10 * value n cs + (c - b'0')
unfolding value
value-snoc n c [] = refl
value-snoc n c (d ∷ cs) = value-snoc (10 * n + (d - b'0')) c cs

last_digit : (n v : ℕ) → v ≡ n / 10 → 10 * v + (b'0' + n % 10 - b'0') ≡ n
last_digit n v h = omega arith

value-decimal_of : (fuel n : ℕ) → n < fuel → value 0 (decimal_of fuel n) ≡ n
unfolding decimal_of value
value-decimal_of zero n h = absurd (omega arith)
value-decimal_of (suc fuel) n h =
    if_elim (λ ds. value 0 ds ≡ n) (ltb n 10) _ _ (λ t. omega arith)
      (λ t.
        value-snoc 0 (b'0' + n % 10) (decimal_of fuel (n / 10))
        ∙ last_digit n (value 0 (decimal_of fuel (n / 10)))
            (value-decimal_of fuel (n / 10) (ground arith)))

-- A number is read back from its digits.
pub decimal_inj : (m n : ℕ) → decimal m ≡ decimal n → m ≡ n
unfolding decimal
decimal_inj m n h =
    sym (value-decimal_of (suc m) m (omega arith))
    ∙ (ap (value 0) h ∙ value-decimal_of (suc n) n (omega arith))

-- `==` on texts
unfoldable pub same_text : List ℕ → List ℕ → Bool
same_text [] [] = true
same_text (a ∷ xs) (b ∷ bs) = if a == b then same_text xs bs else false
same_text [] (b ∷ bs) = false
same_text (a ∷ xs) [] = false

pub same_text_refl : (s : List ℕ) → same_text s s ≡ true
unfolding same_text
same_text_refl [] = refl
same_text_refl (a ∷ s) = ground (arith, same_text_refl s)

pub same_text_eq : (s t : List ℕ) → same_text s t ≡ true → s ≡ t
unfolding same_text
same_text_eq [] [] h = refl
same_text_eq (a ∷ s) (b ∷ t) h =
    let heads : a ≡ b = ground arith in
    let tails : same_text s t ≡ true = ground arith in
    ap₂ (λ x xs. x ∷ xs) heads (same_text_eq s t tails)
same_text_eq [] (b ∷ t) h = cc
same_text_eq (a ∷ s) [] h = cc

pub same_text_ne : (s t : List ℕ) → s ≢ t → same_text s t ≡ false
same_text_ne s t h = ground (arith, same_text_eq s t)

pub same_text_cong : (r s t : List ℕ) → same_text r s ≡ true → same_text r t ≡ same_text s t
same_text_cong r s t h = ap (λ x. same_text x t) (same_text_eq r s h)

pub same_text_join :
    (r s t : List ℕ) → same_text r t ≡ true → same_text s t ≡ true → same_text r s ≡ true
same_text_join r s t h k = rw (same_text_eq r t h, same_text_eq s t k) (same_text_refl t)
