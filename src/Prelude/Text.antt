-- ===== src/Prelude/Text.antt =====
-- Go strings as lists of bytes: comparison, `strings.Split`, `strings.HasPrefix`, `strings.Contains`.
use Prim.Native.Nat.{ℕ}
use Prim.Native.Char.{code}
use Prim.Native.String.{String}
use mathlib.Core.Path.{◌≡◌, refl}
use mathlib.Core.Logic.{◌≢◌, ◌↔◌}
use mathlib.Core.Bool.{Bool, true, false, ◌||◌}
use mathlib.Core.List.{List, [], ◌∷◌, ◌++◌, append-nil, append_assoc}
use native.Mathlib.Omega.{arith}
use gojump.Prelude.Tests.{ltb, ◌==◌, if◌then◌else◌}

abbrev pub Str : Type 0
Str = List ℕ

-- The code points of a literal; these are its bytes when the text is ASCII.
abbrev pub codes : String → Str
codes String.[] = []
codes (String.◌∷◌ c s) = code c ∷ codes s

unfoldable pub str_eq : Str → Str → Bool
str_eq [] [] = true
str_eq [] (y ∷ ys) = false
str_eq (x ∷ xs) [] = false
str_eq (x ∷ xs) (y ∷ ys) = let rest = str_eq xs ys in elim (x == y) [ true ↦ rest | false ↦ false ]

pub eq_iff : (s t : Str) → (str_eq s t ≡ true) ↔ (s ≡ t)
unfolding str_eq
eq_iff [] [] = (λ h. refl, λ h. refl)
eq_iff [] (y ∷ ys) = (λ h. cc, λ h. cc)
eq_iff (x ∷ xs) [] = (λ h. cc, λ h. cc)
eq_iff (x ∷ xs) (y ∷ ys) = ground (arith, eq_iff xs ys)

-- Go's `<` on strings: bytewise, a proper prefix first.
unfoldable pub str_lt : Str → Str → Bool
str_lt [] [] = false
str_lt [] (y ∷ ys) = true
str_lt (x ∷ xs) [] = false
str_lt (x ∷ xs) (y ∷ ys) =
    let rest = str_lt xs ys in
    if ltb x y then true else elim (x == y) [ true ↦ rest | false ↦ false ]

-- strings.Split with a separator of one byte.
module _ (sep : ℕ) where
  cut : Str → Str → List Str
  cut cur [] = cur ∷ []
  cut cur (c ∷ s) = elim (c == sep) [ true ↦ cur ∷ cut [] s | false ↦ cut (cur ++ (c ∷ [])) s ]

unfoldable pub split : Str → ℕ → List Str
unfolding cut
split s sep = cut sep [] s

cut_some : (s cur : Str) (sep : ℕ) → cut sep cur s ≢ []
unfolding cut
cut_some [] cur sep h = cc
cut_some (c ∷ s) cur sep h = ground (arith, cut_some s (cur ++ (c ∷ [])) sep)

cut_once : (s cur w : Str) (sep : ℕ) → cut sep cur s ≡ w ∷ [] → w ≡ cur ++ s
unfolding cut
cut_once [] cur w sep h = ground (arith, append-nil cur)
cut_once (c ∷ s) cur w sep h =
    ground
      (arith, cut_once s (cur ++ (c ∷ [])) w sep, append_assoc cur (c ∷ []) s, cut_some s [] sep)

-- The only part of a text is the text.
pub split_once : (s w : Str) (sep : ℕ) → split s sep ≡ w ∷ [] → w ≡ s
unfolding split
split_once s w sep h = cut_once s [] w sep h

pub starts_with : Str → Str → Bool
starts_with [] s = true
starts_with (p ∷ ps) [] = false
starts_with (p ∷ ps) (c ∷ s) =
    let rest = starts_with ps s in elim (c == p) [ true ↦ rest | false ↦ false ]

unfoldable pub contains : Str → Str → Bool
unfolding starts_with
contains [] p = starts_with p []
contains (c ∷ s) p = starts_with p (c ∷ s) || contains s p
