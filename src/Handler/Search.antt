-- ===== src/Handler/Search.antt =====
-- The searches of pkg/handler/selectHandler.go and asset.go over the client's rows.
pub mod Laws
use gojump.Prelude.{
  ℕ, zero, suc, ◌+◌, Str, List, [], ◌∷◌, ◌++◌, Bool, true, false, ◌&&◌, ◌||◌, Option, none, some,
  if◌then◌else◌, str_eq, contains, codes, any, keep, length,
}
use gojump.Prelude.Dict.{Dict, lookup}
use gojump.Core.Assets.{Item, or_empty}

-- Whether one of the listed fields of the row holds one of the keys.
some_field_holds : Item → List Str → List Str → Bool
some_field_holds [] fields keys = false
some_field_holds ((name, value) ∷ rest) fields keys =
    any (λ f. str_eq f name) fields && any (λ k. contains value k) keys
    || some_field_holds rest fields keys

-- No keys at all, or the one empty key, let every row through.
only_empty : List Str → Bool
only_empty [] = true
only_empty (k ∷ []) = str_eq k []
only_empty (k ∷ l ∷ ks) = false

unfoldable pub contain_keys_in_map_item_fields : Item → List Str → List Str → Bool
unfolding some_field_holds only_empty
contain_keys_in_map_item_fields item fields keys =
    if only_empty keys then true else some_field_holds item fields keys

abbrev pub search_fields : List Str
search_fields =
    codes "name" ∷ codes "hostname" ∷ codes "ip" ∷ codes "platform" ∷ codes "comment" ∷ []

unfoldable pub search_local_asset : List Item → List Str → List Item
unfolding contain_keys_in_map_item_fields
search_local_asset rows searches =
    keep (λ v. contain_keys_in_map_item_fields v search_fields searches) rows

contain_asset_id_in_map : Item → List Str → Bool
contain_asset_id_in_map item ids = elim (lookup (codes "id") item) [
  | none ↦ false
  | some id ↦ any (λ v. str_eq id v) ids
]

unfoldable pub retrieve_local_node_asset : List Item → List Str → List Item
unfolding contain_asset_id_in_map
retrieve_local_node_asset rows ids = keep (λ v. contain_asset_id_in_map v ids) rows

-- The rows whose address or host name is the key; the answer only if there is one such row.
matching : Str → List Item → List Item
matching key rows =
    keep
      (λ v.
        str_eq key (or_empty (lookup (codes "ip") v))
        || str_eq key (or_empty (lookup (codes "hostname") v)))
      rows

only_one : List Item → Option Item
only_one [] = none
only_one (v ∷ []) = some v
only_one (v ∷ w ∷ vs) = none

unfoldable pub get_unique_asset_from_key : Str → List Item → Option Item
unfolding matching only_one
get_unique_asset_from_key key rows = only_one (matching key rows)
