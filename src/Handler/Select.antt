-- ===== src/Handler/Select.antt =====
-- The state and the operations of UserSelectHandler, pkg/handler/selectHandler.go. An operation
-- takes the page size of the moment (`page_size` of getPageSize). `sort_rows` stands for sort.Sort
-- on a page, which leaves the order of equal rows open.
pub mod Pages
pub mod Walk
pub mod Local
pub mod Reach
pub mod Previous
pub mod Allowed
use gojump.Prelude.{
  ℕ, zero, suc, ◌+◌, ◌-◌, ◌*◌, Str, List, [], ◌∷◌, ◌++◌, map, Bool, true, false, ◌&&◌, Option, none,
  some, if◌then◌else◌, ltb, leb, ◌==◌, str_eq, codes, length, take, drop, get_elem?,
}
use gojump.Prelude.Int.{ℤ, pos, negsuc}
use gojump.Prelude.Atoi.{atoi, trim_space, sort_strings}
use gojump.Prelude.Dict.{lookup}
use gojump.Core.Assets.{Item, or_empty}
use gojump.Model.{Node}
use gojump.Handler.Page.{PageInfo, update_page_info}
use gojump.Handler.Search.{search_local_asset, retrieve_local_node_asset, get_unique_asset_from_key}

pub data SelectType : Type 0 where
  unset type_asset type_node_asset : SelectType

pub record Select : Type 0 where
  pub current_type : SelectType
  pub search_keys : List Str
  pub has_pre : Bool
  pub has_next : Bool
  pub all_local_data : List Item
  pub selected_node : Node
  pub current_result : List Item
  pub suggests : List Str
  pub page : PageInfo
  pub open page use *

-- What the client sees next: the page, or a login to the asset of a row.
pub data Action : Type 0 where
  display : Action
  proxy : Item → Action

-- getPageSize: the setting, or the height of the terminal less 8 rows; 0 stands for all.
unfoldable pub get_page_size : Str → ℕ → ℕ
get_page_size setting height =
    let fitted = if leb height 8 then 1 else height - 8 in
    if str_eq setting (codes "auto")
    then fitted
    else if str_eq setting (codes "all")
    then 0
    else elim (atoi setting) [
      | none ↦ fitted
      | some value ↦ elim value [ pos n ↦ if n == 0 then 1 else n | negsuc n ↦ 1 ]
    ]

-- Retrieve, once it has the rows of the search.
unfoldable pub page_through : Select → List Item → (page_size offset : ℕ) → Select × List Item
page_through u found page_size offset =
    let total_data = if ltb offset (length found) then drop offset found else [] in
    let current_total = length total_data in
    let size = if page_size == 0 then current_total else page_size in
    let current_data = if ltb size current_total then take size total_data else total_data in
    let info =
      update_page_info size current_total (offset + length current_data) (length found) u.page in
    (
      record u {
        page = info;
        has_pre = ltb 1 info.current_page;
        has_next = ltb info.current_page info.total_page;
      },
      current_data,
    )

-- SetSelectType(TypeAsset) with its AutoCompletion, which retrieves all rows for the suggestions.
unfoldable pub select_assets : Select → Select
unfolding page_through
select_assets u =
    let (u', assets) =
      page_through (record u { current_type = type_asset })
        (search_local_asset u.all_local_data ([] ∷ [])) 0 0 in
    record u' { suggests = sort_strings (map (λ v. or_empty (lookup (codes "hostname") v)) assets) }

-- retrieveLocal: the handler and the rows of the search.
unfoldable pub retrieve_local : SelectType → Select → List Str → Select × List Item
unfolding select_assets
retrieve_local type_asset u searches = (u, search_local_asset u.all_local_data searches)
retrieve_local type_node_asset u searches =
    (u, retrieve_local_node_asset u.all_local_data u.selected_node.asset_ids)
retrieve_local unset u searches = (select_assets u, search_local_asset u.all_local_data searches)

unfoldable pub retrieve : Select → (page_size offset : ℕ) → List Str → Select × List Item
unfolding retrieve_local
retrieve u page_size offset searches =
    let (u', found) = retrieve_local u.current_type u searches in
    page_through u' found page_size offset

unfoldable pub set_node : Select → Node → Select
set_node u node = record u { current_type = type_node_asset; selected_node = node }

unfoldable pub set_all_local_data : Select → List Item → Select
set_all_local_data u rows = record u { all_local_data = rows }

unfoldable pub has_just_one_asset : Select → Bool
has_just_one_asset u = length u.all_local_data == 1

-- The row of a number that the client entered: counted from 1 on the page that is shown.
unfoldable pub chosen_row : Option ℤ → List Item → Option Item
chosen_row none rows = none
chosen_row (some (negsuc n)) rows = none
chosen_row (some (pos zero)) rows = none
chosen_row (some (pos (suc n))) rows = get_elem? rows n

-- What a client can ask of its table.
pub data Request : Type 0 where
  next previous : ℕ → Request
  look again pick : ℕ → Str → Request
  node : Node → Request
  assets : Request

module _ (sort_rows : List Item → List Item) where
  -- displaySortedAssets leaves the page sorted; an empty page and an unset type only print.
  unfoldable pub sorted_page : List Item → List Item
  sorted_page [] = []
  sorted_page (x ∷ xs) = sort_rows (x ∷ xs)

  unfoldable pub display_as : SelectType → Select → Select
  display_as unset u = u
  display_as type_asset u = record u { current_result = sorted_page u.current_result }
  display_as type_node_asset u = record u { current_result = sorted_page u.current_result }

  unfoldable pub display_current_result : Select → Select
  unfolding sorted_page display_as
  display_current_result u = display_as u.current_type u

  unfoldable pub move_next_page : Select → ℕ → Select
  unfolding display_current_result
  move_next_page u page_size = display_current_result (
      if u.has_next
      then (let (u', result) = retrieve u page_size u.current_offset u.search_keys in
          record u' { current_result = result })
      else u)

  -- `start <= 0` gives 0, as the truncated subtraction does.
  unfoldable pub move_pre_page : Select → ℕ → Select
  unfolding display_current_result
  move_pre_page u page_size = display_current_result (
      if u.has_pre
      then (let (u', result) =
            retrieve u page_size (u.current_offset - page_size * 2) u.search_keys in
          record u' { current_result = result })
      else u)

  unfoldable pub search : Select → ℕ → Str → Select
  unfolding display_current_result
  search u page_size key =
      let (u', result) = retrieve u page_size 0 (key ∷ []) in
      display_current_result (record u' { current_result = result; search_keys = key ∷ [] })

  unfoldable pub search_again : Select → ℕ → Str → Select
  unfolding display_current_result
  search_again u page_size key =
      let keys = u.search_keys ++ (key ∷ []) in
      let (u', result) = retrieve (record u { search_keys = keys }) page_size 0 keys in
      display_current_result (record u' { current_result = result })

  -- SearchOrProxy behind the search: a single row is taken, and among the assets a row whose
  -- address or name is the key.
  unfoldable pub pick_unique : Option Item → Select → Select × Action
  unfolding display_current_result
  pick_unique none u = (display_current_result u, display)
  pick_unique (some v) u = (u, proxy v)

  unfoldable pub pick_by_type : SelectType → Str → Select → Select × Action
  unfolding display_current_result pick_unique
  pick_by_type type_asset key u =
      pick_unique
        (if str_eq (trim_space key) []
          then none
          else get_unique_asset_from_key key u.current_result)
        u
  pick_by_type type_node_asset key u = (display_current_result u, display)
  pick_by_type unset key u = (display_current_result u, display)

  unfoldable pub pick_result : List Item → Str → Select → Select × Action
  unfolding pick_by_type
  pick_result [] key u = pick_by_type u.current_type key u
  pick_result (x ∷ []) key u = (u, proxy x)
  pick_result (x ∷ y ∷ ys) key u = pick_by_type u.current_type key u

  unfoldable pub pick_row : Option Item → Select → ℕ → Str → Select × Action
  unfolding pick_result
  pick_row (some v) u page_size key = (u, proxy v)
  pick_row none u page_size key =
      let (u', result) = retrieve u page_size 0 (key ∷ []) in
      pick_result result key (record u' { current_result = result; search_keys = key ∷ [] })

  unfoldable pub search_or_proxy : Select → ℕ → Str → Select × Action
  unfolding chosen_row pick_row
  search_or_proxy u page_size key =
      pick_row (chosen_row (atoi key) u.current_result) u page_size key

  unfoldable pub step : Select → Request → Select × Action
  step u (next n) = (move_next_page u n, display)
  step u (previous n) = (move_pre_page u n, display)
  step u (look n key) = (search u n key, display)
  step u (again n key) = (search_again u n key, display)
  step u (pick n key) = search_or_proxy u n key
  step u (node x) = (set_node u x, display)
  step u assets = (select_assets u, display)

  unfoldable pub run : Select → List Request → Select
  run u [] = u
  run u (r ∷ rs) = run (step u r).0 rs
