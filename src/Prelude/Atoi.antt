-- ===== src/Prelude/Atoi.antt =====
-- strconv.Atoi on 64-bit integers, strings.TrimSpace on ASCII texts, and sort.Strings.
use Prim.Native.Nat.{ℕ, zero, suc, ◌+◌, ◌-◌, ◌*◌, ◌^◌}
use gojump.Prelude.Lists.{get_elem?}
use mathlib.Core.Bool.{Bool, ◌||◌, ◌&&◌}
use mathlib.Core.List.{List, [], ◌∷◌, reverse}
use mathlib.Core.Option.{Option, none, some}
use gojump.Prelude.Tests.{ltb, leb, ◌==◌, if◌then◌else◌}
use gojump.Prelude.Text.{Str, str_lt}
use gojump.Prelude.Int.{ℤ, pos, negsuc}

digits_value : ℕ → Str → Option ℕ
digits_value n [] = some n
digits_value n (c ∷ s) =
    let rest = digits_value (n * 10 + (c - b'0')) s in
    if leb b'0' c && leb c b'9' then rest else none

magnitude : Str → Option ℕ
unfolding digits_value
magnitude [] = none
magnitude (c ∷ s) = digits_value 0 (c ∷ s)

positive : Option ℕ → Option ℤ
positive none = none
positive (some n) = if ltb n (2 ^ 63) then some (pos n) else none

negative : Option ℕ → Option ℤ
negative none = none
negative (some n) =
    if n == 0 then some (pos 0) else if leb n (2 ^ 63) then some (negsuc (n - 1)) else none

unfoldable pub atoi : Str → Option ℤ
unfolding magnitude positive negative
atoi [] = none
atoi (c ∷ s) =
    if c == b'-'
    then negative (magnitude s)
    else if c == b'+'
    then positive (magnitude s)
    else positive (magnitude (c ∷ s))

is_space : ℕ → Bool
is_space c = c == b' ' || leb 9 c && leb c 13

trim_left : Str → Str
trim_left [] = []
trim_left (c ∷ s) = let rest = trim_left s in if is_space c then rest else c ∷ s

unfoldable pub trim_space : Str → Str
unfolding is_space trim_left
trim_space s = reverse (trim_left (reverse (trim_left s)))

-- Sorting texts leaves no choice, since equal texts are the same.
insert_text : Str → List Str → List Str
insert_text s [] = s ∷ []
insert_text s (t ∷ ts) = let rest = insert_text s ts in if str_lt t s then t ∷ rest else s ∷ t ∷ ts

unfoldable pub sort_strings : List Str → List Str
unfolding insert_text
sort_strings [] = []
sort_strings (s ∷ ss) = insert_text s (sort_strings ss)

-- The entry of a number that a user typed, counted from 1.
unfoldable pub numbered : {A : Type 0} → Option ℤ → List A → Option A
numbered none l = none
numbered (some (negsuc n)) l = none
numbered (some (pos zero)) l = none
numbered (some (pos (suc n))) l = get_elem? l n
