-- ===== src/Handler/Select/Local.antt =====
-- The rows on the page and the client's own.
use gojump.Prelude.{
  ℕ, zero, suc, ◌-◌, ◌*◌, Str, List, [], ◌∷◌, ◌++◌, Bool, true, false, Option, none, some,
  if◌then◌else◌, ltb, ◌==◌, length, take, drop, get_elem?, In, head, tail, ◌≡◌, refl, sym, subst,
  arith,
}
use gojump.Prelude.Int.{ℤ, pos, negsuc}
use gojump.Core.Assets.{Item}
use gojump.Handler.Search.Laws.{search_local_asset-In, node_asset-In}
use gojump.Handler.Select.{
  SelectType, unset, type_asset, type_node_asset, Select, page_through, retrieve_local, retrieve,
  sorted_page, display_as, display_current_result, move_next_page, move_pre_page, search,
  search_again, chosen_row,
}

In-take : {A : Type 0} (n : ℕ) (l : List A) (a : A) → In a (take n l) → In a l
In-take zero l a i = elim i [ ]
In-take (suc n) [] a i = elim i [ ]
In-take (suc n) (x ∷ xs) a head = head
In-take (suc n) (x ∷ xs) a (tail i) = tail (In-take n xs a i)

In-drop : {A : Type 0} (n : ℕ) (l : List A) (a : A) → In a (drop n l) → In a l
In-drop zero l a i = i
In-drop (suc n) [] a i = elim i [ ]
In-drop (suc n) (x ∷ xs) a i = tail (In-drop n xs a i)

pub In-get_elem? : {A : Type 0} (l : List A) (n : ℕ) (a : A) → get_elem? l n ≡ some a → In a l
In-get_elem? [] n a h = cc
In-get_elem? (x ∷ xs) zero a h =
    let same : a ≡ x = ground arith in subst (λ y. In y (x ∷ xs)) (sym same) head
In-get_elem? (x ∷ xs) (suc n) a h = tail (In-get_elem? xs n a h)

-- The rows that stay when a test is made on each branch.
In-if :
    {A : Type 0} (b : Bool) (x y l : List A) (a : A)
    → (In a x → In a l)
    → (In a y → In a l)
    → In a (if b then x else y)
    → In a l
In-if true x y l a hx hy i = hx i
In-if false x y l a hx hy i = hy i

page-In :
    (u : Select) (found : List Item) (size offset : ℕ) (v : Item)
    → In v (page_through u found size offset).1
    → In v found
unfolding page_through
page-In u found size offset v i =
    let total_data = if ltb offset (length found) then drop offset found else [] in
    let whole : In v total_data → In v found =
      In-if (ltb offset (length found)) (drop offset found) [] found v (In-drop offset found v)
        (λ h. elim h [ ]) in
    let current_total = length total_data in
    let n = if size == 0 then current_total else size in
    In-if (ltb n current_total) (take n total_data) total_data found v
      (λ h. whole (In-take n total_data v h)) whole i

retrieve_local-In :
    (t : SelectType) (u : Select) (keys : List Str) (v : Item)
    → In v (retrieve_local t u keys).1
    → In v u.all_local_data
unfolding retrieve_local
retrieve_local-In unset u keys v i = search_local_asset-In u.all_local_data keys v i
retrieve_local-In type_asset u keys v i = search_local_asset-In u.all_local_data keys v i
retrieve_local-In type_node_asset u keys v i =
    node_asset-In u.all_local_data u.selected_node.asset_ids v i

retrieve_local-data :
    (t : SelectType) (u : Select) (keys : List Str)
    → (retrieve_local t u keys).0.all_local_data ≡ u.all_local_data
unfolding retrieve_local
retrieve_local-data unset u keys = refl
retrieve_local-data type_asset u keys = refl
retrieve_local-data type_node_asset u keys = refl

-- Whatever is retrieved is one of the client's rows, and the rows themselves stay.
pub retrieve-In :
    (u : Select) (size offset : ℕ) (keys : List Str) (v : Item)
    → In v (retrieve u size offset keys).1
    → In v u.all_local_data
unfolding retrieve
retrieve-In u size offset keys v i =
    let (u', found) = retrieve_local u.current_type u keys in
    retrieve_local-In u.current_type u keys v (page-In u' found size offset v i)

pub retrieve-data :
    (u : Select) (size offset : ℕ) (keys : List Str)
    → (retrieve u size offset keys).0.all_local_data ≡ u.all_local_data
unfolding retrieve page_through
retrieve-data u size offset keys = retrieve_local-data u.current_type u keys

-- The rows on the page are among the client's rows.
abbrev pub IsLocal : Select → Type 0
IsLocal u = (v : Item) → In v u.current_result → In v u.all_local_data

pub chosen_row-In :
    (n : Option ℤ) (rows : List Item) (v : Item) → chosen_row n rows ≡ some v → In v rows
unfolding chosen_row
chosen_row-In none rows v h = cc
chosen_row-In (some (negsuc n)) rows v h = cc
chosen_row-In (some (pos zero)) rows v h = cc
chosen_row-In (some (pos (suc n))) rows v h = In-get_elem? rows n v h

module _ (sort_rows : List Item → List Item)
    (sort_keeps : (l : List Item) (v : Item) → In v (sort_rows l) → In v l) where
  pub sorted-In : (rows : List Item) (v : Item) → In v (sorted_page sort_rows rows) → In v rows
  unfolding sorted_page
  sorted-In [] v i = i
  sorted-In (x ∷ xs) v i = sort_keeps (x ∷ xs) v i

  pub display_as-IsLocal :
      (t : SelectType) (u : Select) → IsLocal u → IsLocal (display_as sort_rows t u)
  unfolding display_as
  display_as-IsLocal unset u h = h
  display_as-IsLocal type_asset u h = λ v i. h v (sorted-In u.current_result v i)
  display_as-IsLocal type_node_asset u h = λ v i. h v (sorted-In u.current_result v i)

  pub display-IsLocal : (u : Select) → IsLocal u → IsLocal (display_current_result sort_rows u)
  unfolding display_current_result
  display-IsLocal u h = display_as-IsLocal u.current_type u h

  -- A page that was retrieved is local, whatever was shown before.
  pub retrieved-IsLocal :
      (u : Select) (size offset : ℕ) (keys shown_keys : List Str)
      → IsLocal (record ((retrieve u size offset keys).0) {
        current_result = (retrieve u size offset keys).1;
        search_keys = shown_keys;
      })
  retrieved-IsLocal u size offset keys shown_keys v i =
      rw (retrieve-data u size offset keys) (retrieve-In u size offset keys v i)

  if-IsLocal : (b : Bool) (u w : Select) → IsLocal u → IsLocal w → IsLocal (if b then u else w)
  if-IsLocal true u w hu hw = hu
  if-IsLocal false u w hu hw = hw

  pub next-IsLocal : (u : Select) (size : ℕ) → IsLocal u → IsLocal (move_next_page sort_rows u size)
  unfolding move_next_page
  next-IsLocal u size h =
      let (u', result) = retrieve u size u.current_offset u.search_keys in
      let moved : Select = record u' { current_result = result } in
      display-IsLocal (if u.has_next then moved else u) (
        if-IsLocal u.has_next moved u
          (retrieved-IsLocal u size u.current_offset u.search_keys u'.search_keys) h)

  pub pre-IsLocal : (u : Select) (size : ℕ) → IsLocal u → IsLocal (move_pre_page sort_rows u size)
  unfolding move_pre_page
  pre-IsLocal u size h =
      let start = u.current_offset - size * 2 in
      let (u', result) = retrieve u size start u.search_keys in
      let moved : Select = record u' { current_result = result } in
      display-IsLocal (if u.has_pre then moved else u) (
        if-IsLocal u.has_pre moved u (retrieved-IsLocal u size start u.search_keys u'.search_keys)
          h)

  pub search-IsLocal : (u : Select) (size : ℕ) (key : Str) → IsLocal (search sort_rows u size key)
  unfolding search
  search-IsLocal u size key = display-IsLocal _ (retrieved-IsLocal u size 0 (key ∷ []) (key ∷ []))

  pub again-IsLocal :
      (u : Select) (size : ℕ) (key : Str) → IsLocal (search_again sort_rows u size key)
  unfolding search_again
  again-IsLocal u size key =
      let keys = u.search_keys ++ (key ∷ []) in
      let w : Select = record u { search_keys = keys } in
      display-IsLocal _ (retrieved-IsLocal w size 0 keys (retrieve w size 0 keys).0.search_keys)
