-- ===== src/Handler/Select/Previous.antt =====
-- Where "previous page" leads.
use gojump.Prelude.{
  ℕ, ◌+◌, ◌-◌, ◌*◌, ◌≤◌, ◌<◌, List, [], ◌∷◌, true, take, drop, ◌≡◌, refl, sym, ap, ◌∙◌, arith,
}
use gojump.Core.Assets.{Item}
use gojump.Handler.Search.{search_local_asset}
use gojump.Handler.Select.{
  Select, type_asset, retrieve, retrieve_local, move_pre_page, display_current_result, display_as,
  sorted_page,
}
use gojump.Handler.Select.Pages.{page_through-data}

module _ (sort_rows : List Item → List Item) (sort_nil : sort_rows [] ≡ []) where
  sorted_all : (rows : List Item) → sorted_page sort_rows rows ≡ sort_rows rows
  unfolding sorted_page
  sorted_all [] = sym sort_nil
  sorted_all (x ∷ xs) = refl

  -- "Previous page", on the assets and where there is one, starts two page sizes before the current
  -- offset. Behind a page that began at row `o`, not before `size`, and showed `n` rows, these are
  -- the rows from `o - size` on if the page was full, the start of the page before; behind a page
  -- that was not full they begin `size - n` rows too far back, so that as many of the previous
  -- page's rows are not shown.
  pub previous_rows :
      (u0 : Select) (size o n : ℕ)
      → 0 < size
      → n ≤ size
      → size ≤ o
      → u0.current_offset ≡ o + n
      → let u = record u0 { current_type = type_asset; has_pre = true } in
        (move_pre_page sort_rows u size).current_result
        ≡ sort_rows (
            take size
              (drop (o - size - (size - n)) (search_local_asset u0.all_local_data u0.search_keys)))
  unfolding move_pre_page display_current_result display_as retrieve retrieve_local
  previous_rows u0 size o n h le first at =
      let u : Select = record u0 { current_type = type_asset; has_pre = true } in
      let found = search_local_asset u0.all_local_data u0.search_keys in
      let start : u0.current_offset - size * 2 ≡ o - size - (size - n) = omega arith in
      sorted_all _
      ∙ ap sort_rows (
          page_through-data u found size (u0.current_offset - size * 2) h
          ∙ ap (λ (k : ℕ). take size (drop k found)) start)
