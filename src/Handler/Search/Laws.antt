-- ===== src/Handler/Search/Laws.antt =====
-- What searching with more keys finds.
use gojump.Prelude.{
  keep-In, In-keep, Str, List, [], ◌∷◌, ◌++◌, map, Bool, true, ◌||◌, some, str_eq, eq_iff, contains,
  codes, any, In, head, tail, ◌≡◌, ◌≢◌, inl, inr, refl, arith, Bool-cases, subst, sym,
}
use gojump.Prelude.Dict.{lookup}
use gojump.Core.Assets.{Item, or_empty, to_item}
use gojump.Model.{Asset}
use gojump.Handler.Search.{
  retrieve_local_node_asset, contain_asset_id_in_map, some_field_holds,
  contain_keys_in_map_item_fields, search_fields, search_local_asset, matching, only_one,
  get_unique_asset_from_key,
}

any-append :
    {A : Type 0} (p : A → Bool) (xs ys : List A) → any p xs ≡ true → any p (xs ++ ys) ≡ true
any-append p [] ys h = cc
any-append p (x ∷ xs) ys h = ground (arith, any-append p xs ys)

more_keys :
    (item : Item) (fields keys : List Str) (k : Str)
    → some_field_holds item fields keys ≡ true
    → some_field_holds item fields (keys ++ (k ∷ [])) ≡ true
unfolding some_field_holds
more_keys [] fields keys k h = cc
more_keys ((name, value) ∷ rest) fields keys k h =
    ground (
      arith,
      any-append (λ (q : Str). contains value q) keys (k ∷ []),
      more_keys rest fields keys k,
    )

contains_empty : (s : Str) → contains s [] ≡ true
unfolding contains
contains_empty [] = refl
contains_empty (c ∷ s) = refl

-- A row as the server sends it has a host name, and the empty key is in that.
empty_key : (a : Asset) (k : Str) → some_field_holds (to_item a) search_fields ([] ∷ k ∷ []) ≡ true
unfolding some_field_holds to_item str_eq
empty_key a k = ground (arith, contains_empty a.hostname)

again_holds :
    (a : Asset) (keys : List Str) (k : Str)
    → keys ≢ []
    → contain_keys_in_map_item_fields (to_item a) search_fields keys ≡ true
    → contain_keys_in_map_item_fields (to_item a) search_fields (keys ++ (k ∷ [])) ≡ true
unfolding contain_keys_in_map_item_fields
again_holds a [] k ne h = absurd (ne refl)
again_holds a (q ∷ []) k ne h = elim (Bool-cases (str_eq q [])) [
  | inl e ↦ let same = (eq_iff q []).0 e in rw same (empty_key a k)
  | inr e ↦ more_keys (to_item a) search_fields (q ∷ []) k (ground arith)
]
again_holds a (q ∷ r ∷ qs) k ne h = more_keys (to_item a) search_fields (q ∷ r ∷ qs) k h

In-to_item :
    (assets : List Asset) (v : Item) → In v (map to_item assets) → (a : Asset) × (v ≡ to_item a)
In-to_item [] v i = elim i [ ]
In-to_item (a ∷ as') v head = (a, refl)
In-to_item (a ∷ as') v (tail i) = In-to_item as' v i

-- Searching again with one more key, after a search with at least one, never loses a row: every
-- asset that the earlier keys found is found by all the keys together.
pub search_again_widens :
    (assets : List Asset) (keys : List Str) (k : Str) (v : Item)
    → keys ≢ []
    → In v (search_local_asset (map to_item assets) keys)
    → In v (search_local_asset (map to_item assets) (keys ++ (k ∷ [])))
unfolding search_local_asset
search_again_widens assets keys k v ne i =
    let test = λ (w : Item). contain_keys_in_map_item_fields w search_fields keys in
    let test' = λ (w : Item). contain_keys_in_map_item_fields w search_fields (keys ++ (k ∷ [])) in
    let found = keep-In test (map to_item assets) v i in
    let (a, same) = In-to_item assets v found.0 in
    In-keep test' (map to_item assets) v found.0
      (rw same (again_holds a keys k ne (rw same at found.1)))

pub search_local_asset-In :
    (rows : List Item) (keys : List Str) (v : Item)
    → In v (search_local_asset rows keys)
    → In v rows
unfolding search_local_asset
search_local_asset-In rows keys v i =
    (keep-In (λ (w : Item). contain_keys_in_map_item_fields w search_fields keys) rows v i).0

pub node_asset-In :
    (rows : List Item) (ids : List Str) (v : Item)
    → In v (retrieve_local_node_asset rows ids)
    → In v rows
unfolding retrieve_local_node_asset
node_asset-In rows ids v i = (keep-In (λ (w : Item). contain_asset_id_in_map w ids) rows v i).0

only_one-In : (rows : List Item) (v : Item) → only_one rows ≡ some v → In v rows
unfolding only_one
only_one-In [] v h = cc
only_one-In (w ∷ []) v h =
    let same : v ≡ w = ground arith in subst (λ y. In y (w ∷ [])) (sym same) head
only_one-In (w ∷ x ∷ xs) v h = cc

pub unique-In :
    (key : Str) (rows : List Item) (v : Item)
    → get_unique_asset_from_key key rows ≡ some v
    → In v rows
unfolding get_unique_asset_from_key matching
unique-In key rows v h =
    (keep-In
      (λ (w : Item).
        str_eq key (or_empty (lookup (codes "ip") w))
        || str_eq key (or_empty (lookup (codes "hostname") w)))
      rows v (only_one-In (matching key rows) v h)).0
