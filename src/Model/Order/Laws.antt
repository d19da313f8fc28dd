-- ===== src/Model/Order/Laws.antt =====
-- The two comparisons as orders.
use gojump.Prelude.{Str, List, [], ◌∷◌, true, false, eq_iff, str_lt, split, ◌≡◌, refl, arith}
use gojump.Model.{Node}
use gojump.Model.Order.{key_parts, key_sort, ip_parts, compare_ip}

str_lt_asymm : (p q : Str) → str_lt p q ≡ true → str_lt q p ≡ false
unfolding str_lt
str_lt_asymm [] [] h = refl
str_lt_asymm [] (y ∷ ys) h = refl
str_lt_asymm (x ∷ xs) [] h = cc
str_lt_asymm (x ∷ xs) (y ∷ ys) h = ground (arith, str_lt_asymm xs ys)

parts_refl : (ps : List Str) → (ip_parts ps ps ≡ true) × (key_parts ps ps ≡ true)
unfolding ip_parts key_parts
parts_refl [] = (refl, refl)
parts_refl (p ∷ ps) = ground (arith, parts_refl ps, eq_iff p p)

-- Both comparisons say of a value that it comes before itself, which a `Less` of package sort must
-- never do.
pub less_self : (node : Node) (ip : Str) → (key_sort node node ≡ true) × (compare_ip ip ip ≡ true)
unfolding key_sort compare_ip
less_self node ip = ((parts_refl (split node.key b':')).1, (parts_refl (split ip b'.')).0)

ip_parts_antisymm : (ps qs : List Str) → ip_parts ps qs ≡ true → ip_parts qs ps ≡ true → ps ≡ qs
unfolding ip_parts
ip_parts_antisymm [] [] h k = refl
ip_parts_antisymm [] (q ∷ qs) h k = cc
ip_parts_antisymm (p ∷ ps) [] h k = cc
ip_parts_antisymm (p ∷ ps) (q ∷ qs) h k =
    ground (arith, ip_parts_antisymm ps qs, eq_iff p q, eq_iff q p, str_lt_asymm p q)

-- Two addresses that each come before the other have the same parts.
pub compare_ip_antisymm :
    (a b : Str) → compare_ip a b ≡ true → compare_ip b a ≡ true → split a b'.' ≡ split b b'.'
unfolding compare_ip
compare_ip_antisymm a b h k = ip_parts_antisymm (split a b'.') (split b b'.') h k
