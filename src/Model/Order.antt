-- ===== src/Model/Order.antt =====
-- The comparisons that the sorts use: keySort of pkg/model/node.go, and CompareIP of
-- pkg/handler/asset.go, which assetSortByIP of pkg/model/asset.go repeats.
pub mod Laws
use gojump.Prelude.{
  ℕ, Str, List, [], ◌∷◌, Bool, true, false, Option, none, some, if◌then◌else◌, str_eq, str_lt,
  split, length, ltb, ◌==◌,
}
use gojump.Prelude.Int.{ℤ, ltb_ℤ}
use gojump.Prelude.Atoi.{atoi}
use gojump.Model.{Node}

-- The loop over the parts of two keys.
pub key_parts : List Str → List Str → Bool
key_parts [] qs = true
key_parts (p ∷ ps) [] = false
key_parts (p ∷ ps) (q ∷ qs) =
    let rest = key_parts ps qs in
    if str_eq p q then rest else elim (atoi p) [
      | none ↦ true
      | some m ↦ elim (atoi q) [ none ↦ false | some n ↦ ltb_ℤ m n ]
    ]

unfoldable pub key_sort : Node → Node → Bool
unfolding key_parts
key_sort node1 node2 = key_parts (split node1.key b':') (split node2.key b':')

pub ip_parts : List Str → List Str → Bool
ip_parts [] qs = true
ip_parts (p ∷ ps) [] = false
ip_parts (p ∷ ps) (q ∷ qs) =
    let rest = ip_parts ps qs in
    if length p == length q
    then (if str_eq p q then rest else str_lt p q)
    else ltb (length p) (length q)

unfoldable pub compare_ip : Str → Str → Bool
unfolding ip_parts
compare_ip ip_a ip_b = ip_parts (split ip_a b'.') (split ip_b b'.')
