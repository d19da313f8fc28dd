-- ===== src/Prelude/Format.antt =====
-- What the program uses of fmt and strings for its tables: strings.Join, `%d`, `%v` of a bool and
-- `%Ns`. A text is padded by its number of runes, which `rune_count` (utf8.RuneCountInString) gives.
use Prim.Native.Nat.{ℕ, zero, suc, ◌+◌, ◌-◌, ◌/◌, ◌%◌}
use mathlib.Core.Bool.{Bool, true, false}
use mathlib.Core.List.{List, [], ◌∷◌, ◌++◌}
use gojump.Prelude.Tests.{ltb, if◌then◌else◌}
use gojump.Prelude.Text.{Str, codes}
use gojump.Prelude.Int.{ℤ, pos, negsuc}

unfoldable pub join : Str → List Str → Str
join sep [] = []
join sep (s ∷ []) = s
join sep (s ∷ t ∷ ts) = s ++ (sep ++ join sep (t ∷ ts))

-- The decimal digits in front of `acc`; a number is a fuel that is more than enough for itself.
digits : ℕ → ℕ → Str → Str
digits zero n acc = acc
digits (suc fuel) n acc =
    let c = b'0' + n % 10 in
    let rest = digits fuel (n / 10) (c ∷ acc) in if ltb n 10 then c ∷ acc else rest

unfoldable pub itoa : ℤ → Str
unfolding digits
itoa (pos n) = digits (suc n) n []
itoa (negsuc n) = b'-' ∷ digits (n + 2) (suc n) []

abbrev pub bool_text : Bool → Str
bool_text true = codes "true"
bool_text false = codes "false"

spaces : ℕ → Str
spaces zero = []
spaces (suc n) = b' ' ∷ spaces n

module _ (rune_count : Str → ℕ) where
  unfoldable pub pad : ℕ → Str → Str
  unfolding spaces
  pad width s = spaces (width - rune_count s) ++ s
