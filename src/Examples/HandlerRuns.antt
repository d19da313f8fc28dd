-- ===== src/Examples/HandlerRuns.antt =====
-- The client's table on one asset.
use gojump.Prelude.{
  length, ◌++◌, leb, any, true, ◌↔◌, List, [], ◌∷◌, map, false, codes, str_eq, contains, ltb, ◌≡◌,
  ◌≢◌, ◌+◌, refl, arith, In, head,
}
use gojump.Prelude.Dict.{lookup}
use gojump.Prelude.Atoi.{atoi}
use gojump.Core.Assets.{Item, to_item, no_node}
use gojump.Handler.Idle.{Watch, clock, check, loop}
use gojump.Handler.Idle.Laws.{idle_closed_iff}
use gojump.Handler.Page.{no_pages, page_of}
use gojump.Handler.Page.Laws.{next_page_exact}
use gojump.Handler.Search.{search_local_asset}
use gojump.Handler.Select.{
  unset, Select, type_asset, proxy, step, run, pick, look, search_or_proxy, search, retrieve,
}
use gojump.Handler.Select.Walk.{found_rows, next_pages, last_page, walk_all}
use mathlib.Core.List.{Perm}
use mathlib.Core.List.Perm
use gojump.Examples.Memory.{web}

abbrev row : Item
row = to_item web

abbrev one_row : List Item
one_row = map to_item (web ∷ [])

abbrev table : Select
table = record {
  current_type = type_asset;
  search_keys = [] ∷ [];
  has_pre = false;
  has_next = false;
  all_local_data = one_row;
  selected_node = no_node;
  current_result = [];
  suggests = [];
  page = no_pages;
}

next_page_example : ltb (page_of (3 + 3) 3) (page_of 7 3) ≡ ltb (3 + 3) 7
next_page_example = next_page_exact 3 7 3 3 (omega arith) refl refl

abbrev two_table : Select
two_table = record table {
  all_local_data = map to_item (web ∷ record web { id = codes "a2" } ∷ []);
}

table_typed : two_table.current_type ≢ unset
table_typed h = cc

walk_example :
    let found = found_rows two_table ([] ∷ []) in
    let first = search (λ l. l) two_table 1 [] in
    let fuel = length found + 1 in
    Perm (first.current_result ++ next_pages (λ l. l) fuel first 1) found
    × ((last_page (λ l. l) fuel first 1).has_next ≡ false)
walk_example = walk_all (λ l. l) (λ l. Perm.refl l) two_table 1 [] (omega arith) table_typed

abbrev second_page : Select
second_page = record table { page = record no_pages { current_offset = 3 } }

found_by_name : In row (search_local_asset one_row (codes "web" ∷ []))
unfolding search_local_asset to_item contains str_eq lookup
found_by_name = head

nonempty_keys : (codes "web" ∷ []) ≢ []
nonempty_keys h = cc

identity_keeps : (l : List Item) (v : Item) → In v l → In v l
identity_keeps l v i = i

picked :
    (step (λ l. l) (run (λ l. l) table (look 0 (codes "web") ∷ [])) (pick 0 (codes "1"))).1
    ≡ proxy row
unfolding step run search_or_proxy atoi search retrieve search_local_asset str_eq to_item contains
picked = refl

abbrev watched : Watch
watched = record { tick = 60; check_status = true; closes = 0 }

idle_example :
    (((loop 60 watched (check 50 true ∷ map clock (60 ∷ 120 ∷ []))).closes ≡ 0)
      ↔ (any (λ u. leb (50 + 60) u) (60 ∷ 120 ∷ []) ≡ false))
    × ((loop 60 watched (check 50 false ∷ map clock (60 ∷ 120 ∷ []))).closes ≡ 0)
idle_example = idle_closed_iff 60 watched 50 (60 ∷ 120 ∷ [])
