-- ===== src/Common/Prefix.antt =====
-- LongestCommonPrefix, FilterPrefix and LongestStr of pkg/common/util.go.
pub mod Laws
use gojump.Prelude.{
  ℕ, zero, suc, ◌+◌, ◌-◌, ◌/◌, Str, List, [], ◌∷◌, Bool, true, false, ◌&&◌, if◌then◌else◌, ltb, leb,
  str_eq, all, keep, length, take,
}

-- `isCommonPrefix`: the first `n` bytes of the first text begin each of the others.
is_common_prefix : Str → List Str → ℕ → Bool
is_common_prefix str0 others n = all (λ s. str_eq (take n s) (take n str0)) others

min_length : ℕ → List Str → ℕ
min_length m [] = m
min_length m (s ∷ ss) = min_length (if ltb (length s) m then length s else m) ss

-- The binary search. `high - low` falls in each round, so a fuel of `high - low` is enough.
bisect : ℕ → Str → List Str → ℕ → ℕ → ℕ
bisect zero str0 others low high = low
bisect (suc fuel) str0 others low high =
    let mid = (high - low + 1) / 2 + low in
    let ok = is_common_prefix str0 others mid in
    let rest = bisect fuel str0 others (if ok then mid else low) (if ok then high else mid - 1) in
    if ltb low high then rest else low

unfoldable pub longest_common_prefix : List Str → Str
unfolding is_common_prefix min_length bisect
longest_common_prefix [] = []
longest_common_prefix (str0 ∷ others) =
    let m = min_length (length str0) (str0 ∷ others) in take (bisect m str0 others 0 m) str0

unfoldable pub filter_prefix : List Str → Str → List Str
filter_prefix strs s = keep (λ v. leb (length s) (length v) && str_eq (take (length s) v) s) strs

-- The last of the longest texts.
longest_from : Str → List Str → Str
longest_from longest [] = longest
longest_from longest (s ∷ ss) =
    longest_from (if leb (length longest) (length s) then s else longest) ss

unfoldable pub longest_str : List Str → Str
unfolding longest_from
longest_str strs = longest_from [] strs
