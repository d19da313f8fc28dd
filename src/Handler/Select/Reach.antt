-- ===== src/Handler/Select/Reach.antt =====
-- What a client can reach through its table.
use gojump.Prelude.{
  ℕ, ◌-◌, ◌*◌, Str, List, [], ◌∷◌, ◌++◌, Bool, true, false, Option, none, some, if◌then◌else◌, In,
  head, ◌≡◌, refl, sym, ◌∙◌, subst, arith,
}
use gojump.Prelude.Atoi.{atoi}
use gojump.Core.Assets.{Item}
use gojump.Model.{Node}
use gojump.Handler.Search.Laws.{unique-In}
use gojump.Handler.Select.{
  SelectType, unset, type_asset, type_node_asset, Select, Action, display, proxy, select_assets,
  page_through, assets, retrieve, set_node, display_as, display_current_result, move_next_page,
  move_pre_page, search, search_again, chosen_row, pick_unique, pick_by_type, pick_result, pick_row,
  search_or_proxy, Request, next, previous, look, again, pick, node, step, run,
}
use gojump.Handler.Select.Local.{
  IsLocal, display-IsLocal, retrieved-IsLocal, next-IsLocal, pre-IsLocal, search-IsLocal,
  again-IsLocal, chosen_row-In, retrieve-data,
}

not_In_nil : {A : Type 0} (a : A) → ¬ (In a [])
not_In_nil a i = elim i [ ]

node-IsLocal : (u : Select) (x : Node) → IsLocal u → IsLocal (set_node u x)
unfolding set_node
node-IsLocal u x h = h

node-data : (u : Select) (x : Node) → (set_node u x).all_local_data ≡ u.all_local_data
unfolding set_node
node-data u x = refl

assets-IsLocal : (u : Select) → IsLocal u → IsLocal (select_assets u)
unfolding select_assets page_through
assets-IsLocal u h = h

assets-data : (u : Select) → (select_assets u).all_local_data ≡ u.all_local_data
unfolding select_assets page_through
assets-data u = refl

module _ (sort_rows : List Item → List Item)
    (sort_keeps : (l : List Item) (v : Item) → In v (sort_rows l) → In v l) where
  -- A good outcome: the page is local, the rows are the same, and a row that is picked is local.
  abbrev pub IsGood : List Item → Select × Action → Type 0
  IsGood rows r =
      IsLocal r.0 × (r.0.all_local_data ≡ rows) × ((v : Item) → r.1 ≡ proxy v → In v rows)

  pub display_as-data :
      (t : SelectType) (u : Select) → (display_as sort_rows t u).all_local_data ≡ u.all_local_data
  unfolding display_as
  display_as-data unset u = refl
  display_as-data type_asset u = refl
  display_as-data type_node_asset u = refl

  shown-IsGood :
      (u : Select)
      → IsLocal u
      → IsGood u.all_local_data (display_current_result sort_rows u, display)
  unfolding display_current_result
  shown-IsGood u h = (
    display-IsLocal sort_rows sort_keeps u h,
    display_as-data u.current_type u,
    λ v e. absurd (cc),
  )

  picked-IsGood :
      (u : Select) (w : Item)
      → IsLocal u
      → In w u.all_local_data
      → IsGood u.all_local_data (u, proxy w)
  picked-IsGood u w h i =
      (h, refl, λ v e. let same : v ≡ w = cc in subst (λ y. In y u.all_local_data) (sym same) i)

  pick_unique-IsGood :
      (o : Option Item) (u : Select)
      → IsLocal u
      → ((v : Item) → o ≡ some v → In v u.current_result)
      → IsGood u.all_local_data (pick_unique sort_rows o u)
  unfolding pick_unique
  pick_unique-IsGood none u h found = shown-IsGood u h
  pick_unique-IsGood (some v) u h found = picked-IsGood u v h (h v (found v refl))

  pick_by_type-IsGood :
      (t : SelectType) (key : Str) (u : Select)
      → IsLocal u
      → IsGood u.all_local_data (pick_by_type sort_rows t key u)
  unfolding pick_by_type
  pick_by_type-IsGood unset key u h = shown-IsGood u h
  pick_by_type-IsGood type_node_asset key u h = shown-IsGood u h
  pick_by_type-IsGood type_asset key u h =
      pick_unique-IsGood _ u h (λ v e. unique-In key u.current_result v (ground (arith, e)))

  pick_result-IsGood :
      (rows : List Item) (key : Str) (u : Select)
      → IsLocal u
      → ((v : Item) → In v rows → In v u.all_local_data)
      → IsGood u.all_local_data (pick_result sort_rows rows key u)
  unfolding pick_result
  pick_result-IsGood [] key u h l = pick_by_type-IsGood u.current_type key u h
  pick_result-IsGood (x ∷ []) key u h l = picked-IsGood u x h (l x head)
  pick_result-IsGood (x ∷ y ∷ ys) key u h l = pick_by_type-IsGood u.current_type key u h

  pick_row-IsGood :
      (o : Option Item) (u : Select) (size : ℕ) (key : Str)
      → IsLocal u
      → ((v : Item) → o ≡ some v → In v u.current_result)
      → IsGood u.all_local_data (pick_row sort_rows o u size key)
  unfolding pick_row
  pick_row-IsGood (some v) u size key h found = picked-IsGood u v h (h v (found v refl))
  pick_row-IsGood none u size key h found =
      let (u', result) = retrieve u size 0 (key ∷ []) in
      let w : Select = record u' { current_result = result; search_keys = key ∷ [] } in
      let local = retrieved-IsLocal sort_rows sort_keeps u size 0 (key ∷ []) (key ∷ []) in
      subst (λ (rows : List Item). IsGood rows (pick_result sort_rows result key w))
        (retrieve-data u size 0 (key ∷ [])) (pick_result-IsGood result key w local local)

  moved-IsGood :
      (u w : Select)
      → IsLocal w
      → w.all_local_data ≡ u.all_local_data
      → IsGood u.all_local_data (w, display)
  moved-IsGood u w h e = (h, e, λ v x. absurd (cc))

  display-data :
      (u : Select) (rows : List Item)
      → u.all_local_data ≡ rows
      → (display_current_result sort_rows u).all_local_data ≡ rows
  unfolding display_current_result
  display-data u rows h = display_as-data u.current_type u ∙ h

  if-data :
      (b : Bool) (w u : Select)
      → w.all_local_data ≡ u.all_local_data
      → (if b then w else u).all_local_data ≡ u.all_local_data
  if-data true w u h = h
  if-data false w u h = refl

  next-data :
      (u : Select) (n : ℕ) → (move_next_page sort_rows u n).all_local_data ≡ u.all_local_data
  unfolding move_next_page
  next-data u n =
      let (u', result) = retrieve u n u.current_offset u.search_keys in
      let w : Select = record u' { current_result = result } in
      display-data (if u.has_next then w else u) u.all_local_data
        (if-data u.has_next w u (retrieve-data u n u.current_offset u.search_keys))

  pre-data : (u : Select) (n : ℕ) → (move_pre_page sort_rows u n).all_local_data ≡ u.all_local_data
  unfolding move_pre_page
  pre-data u n =
      let (u', result) = retrieve u n (u.current_offset - n * 2) u.search_keys in
      let w : Select = record u' { current_result = result } in
      display-data (if u.has_pre then w else u) u.all_local_data
        (if-data u.has_pre w u (retrieve-data u n (u.current_offset - n * 2) u.search_keys))

  search-data :
      (u : Select) (n : ℕ) (key : Str)
      → (search sort_rows u n key).all_local_data ≡ u.all_local_data
  unfolding search
  search-data u n key =
      let (u', result) = retrieve u n 0 (key ∷ []) in
      let w : Select = record u' { current_result = result; search_keys = key ∷ [] } in
      display-data w u.all_local_data (retrieve-data u n 0 (key ∷ []))

  again-data :
      (u : Select) (n : ℕ) (key : Str)
      → (search_again sort_rows u n key).all_local_data ≡ u.all_local_data
  unfolding search_again
  again-data u n key =
      let keys = u.search_keys ++ (key ∷ []) in
      let u0 : Select = record u { search_keys = keys } in
      let (u', result) = retrieve u0 n 0 keys in
      let w : Select = record u' { current_result = result } in
      display-data w u.all_local_data (retrieve-data u0 n 0 keys)

  pub step-IsGood :
      (u : Select) (r : Request) → IsLocal u → IsGood u.all_local_data (step sort_rows u r)
  unfolding step search_or_proxy
  step-IsGood u (next n) h =
      moved-IsGood u (move_next_page sort_rows u n) (next-IsLocal sort_rows sort_keeps u n h)
        (next-data u n)
  step-IsGood u (previous n) h =
      moved-IsGood u (move_pre_page sort_rows u n) (pre-IsLocal sort_rows sort_keeps u n h)
        (pre-data u n)
  step-IsGood u (look n key) h =
      moved-IsGood u (search sort_rows u n key) (search-IsLocal sort_rows sort_keeps u n key)
        (search-data u n key)
  step-IsGood u (again n key) h =
      moved-IsGood u (search_again sort_rows u n key) (again-IsLocal sort_rows sort_keeps u n key)
        (again-data u n key)
  step-IsGood u (pick n key) h =
      pick_row-IsGood (chosen_row (atoi key) u.current_result) u n key h
        (λ v e. chosen_row-In (atoi key) u.current_result v e)
  step-IsGood u assets h = moved-IsGood u (select_assets u) (assets-IsLocal u h) (assets-data u)
  step-IsGood u (node x) h = moved-IsGood u (set_node u x) (node-IsLocal u x h) (node-data u x)

  run-IsLocal :
      (u : Select) (rs : List Request)
      → IsLocal u
      → IsLocal (run sort_rows u rs) × ((run sort_rows u rs).all_local_data ≡ u.all_local_data)
  unfolding run
  run-IsLocal u [] h = (h, refl)
  run-IsLocal u (r ∷ rs) h =
      let good = step-IsGood u r h in
      let rest = run-IsLocal (step sort_rows u r).0 rs good.0 in (rest.0, rest.1 ∙ good.1)

  -- Whatever a client types, in whatever order, from an empty page on, and with a sort that adds no
  -- rows: a login starts only to a row that the server sent as one of the client's own.
  pub reach_local :
      (u : Select) (rs : List Request) (r : Request) (v : Item)
      → u.current_result ≡ []
      → (step sort_rows (run sort_rows u rs) r).1 ≡ proxy v
      → In v u.all_local_data
  reach_local u rs r v empty e =
      let start : IsLocal u = λ w i. absurd (not_In_nil w (subst (In w) empty i)) in
      let later = run-IsLocal u rs start in
      let good = step-IsGood (run sort_rows u rs) r later.0 in subst (In v) later.1 (good.2 v e)
