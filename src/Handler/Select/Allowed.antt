-- ===== src/Handler/Select/Allowed.antt =====
-- Rows that satisfy a condition, on the page and among the client's own: a refresh may replace the
-- client's rows and leave the page as it was.
use gojump.Prelude.{
  ℕ, ◌-◌, ◌*◌, Str, List, [], ◌∷◌, ◌++◌, Bool, true, false, Option, none, some, if◌then◌else◌, In,
  head, ◌≡◌, refl, subst, arith,
}
use gojump.Prelude.Atoi.{atoi}
use gojump.Core.Assets.{Item}
use gojump.Handler.Search.Laws.{unique-In}
use gojump.Handler.Select.{
  SelectType, unset, type_asset, type_node_asset, Select, Action, display, proxy, select_assets,
  page_through, assets, retrieve, set_node, display_as, display_current_result, move_next_page,
  move_pre_page, search, search_again, chosen_row, pick_unique, pick_by_type, pick_result, pick_row,
  search_or_proxy, Request, next, previous, look, again, pick, node, step,
}
use gojump.Handler.Select.Local.{chosen_row-In, retrieve-In, retrieve-data, sorted-In}

-- All rows that the client can come by satisfy `P`.
pub record IsAllowed (P : Item → Type 0) (u : Select) : Type 0 where
  pub shown : (v : Item) → In v u.current_result → P v
  pub own : (v : Item) → In v u.all_local_data → P v

module _ (sort_rows : List Item → List Item)
    (sort_keeps : (l : List Item) (v : Item) → In v (sort_rows l) → In v l)
    (P : Item → Type 0) where
  abbrev pub IsFine : Select × Action → Type 0
  IsFine r = IsAllowed P r.0 × ((v : Item) → r.1 ≡ proxy v → P v)

  display_as-IsAllowed :
      (t : SelectType) (u : Select) → IsAllowed P u → IsAllowed P (display_as sort_rows t u)
  unfolding display_as
  display_as-IsAllowed unset u h = h
  display_as-IsAllowed type_asset u h = record {
    shown = λ v i. h.shown v (sorted-In sort_rows sort_keeps u.current_result v i);
    own = h.own;
  }
  display_as-IsAllowed type_node_asset u h = record {
    shown = λ v i. h.shown v (sorted-In sort_rows sort_keeps u.current_result v i);
    own = h.own;
  }

  shown-IsFine : (u : Select) → IsAllowed P u → IsFine (display_current_result sort_rows u, display)
  unfolding display_current_result
  shown-IsFine u h = (display_as-IsAllowed u.current_type u h, λ v e. absurd (cc))

  -- What was retrieved, under any keys.
  retrieved-IsAllowed :
      (u : Select) (size offset : ℕ) (keys shown_keys : List Str)
      → IsAllowed P u
      → IsAllowed P (record ((retrieve u size offset keys).0) {
        current_result = (retrieve u size offset keys).1;
        search_keys = shown_keys;
      })
  retrieved-IsAllowed u size offset keys shown_keys h = record {
    shown = λ v i. h.own v (retrieve-In u size offset keys v i);
    own = λ v i. h.own v (subst (In v) (retrieve-data u size offset keys) i);
  }

  -- The same, where the keys stay those of the handler.
  moved-IsAllowed :
      (u : Select) (size offset : ℕ) (keys : List Str)
      → IsAllowed P u
      → IsAllowed P (record ((retrieve u size offset keys).0) {
        current_result = (retrieve u size offset keys).1;
      })
  moved-IsAllowed u size offset keys h = record {
    shown = λ v i. h.own v (retrieve-In u size offset keys v i);
    own = λ v i. h.own v (subst (In v) (retrieve-data u size offset keys) i);
  }

  if-IsAllowed :
      (b : Bool) (u w : Select) → IsAllowed P u → IsAllowed P w → IsAllowed P (if b then u else w)
  if-IsAllowed true u w hu hw = hu
  if-IsAllowed false u w hu hw = hw

  picked-IsFine : (u : Select) (w : Item) → IsAllowed P u → P w → IsFine (u, proxy w)
  picked-IsFine u w h p = (h, λ v e. subst P (cc) p)

  pick_unique-IsFine :
      (o : Option Item) (u : Select)
      → IsAllowed P u
      → ((v : Item) → o ≡ some v → In v u.current_result)
      → IsFine (pick_unique sort_rows o u)
  unfolding pick_unique
  pick_unique-IsFine none u h found = shown-IsFine u h
  pick_unique-IsFine (some v) u h found = picked-IsFine u v h (h.shown v (found v refl))

  pick_by_type-IsFine :
      (t : SelectType) (key : Str) (u : Select)
      → IsAllowed P u
      → IsFine (pick_by_type sort_rows t key u)
  unfolding pick_by_type
  pick_by_type-IsFine unset key u h = shown-IsFine u h
  pick_by_type-IsFine type_node_asset key u h = shown-IsFine u h
  pick_by_type-IsFine type_asset key u h =
      pick_unique-IsFine _ u h (λ v e. unique-In key u.current_result v (ground (arith, e)))

  pick_result-IsFine :
      (rows : List Item) (key : Str) (u : Select)
      → IsAllowed P u
      → ((v : Item) → In v rows → P v)
      → IsFine (pick_result sort_rows rows key u)
  unfolding pick_result
  pick_result-IsFine [] key u h l = pick_by_type-IsFine u.current_type key u h
  pick_result-IsFine (x ∷ []) key u h l = picked-IsFine u x h (l x head)
  pick_result-IsFine (x ∷ y ∷ ys) key u h l = pick_by_type-IsFine u.current_type key u h

  pick_row-IsFine :
      (o : Option Item) (u : Select) (size : ℕ) (key : Str)
      → IsAllowed P u
      → ((v : Item) → o ≡ some v → In v u.current_result)
      → IsFine (pick_row sort_rows o u size key)
  unfolding pick_row
  pick_row-IsFine (some v) u size key h found = picked-IsFine u v h (h.shown v (found v refl))
  pick_row-IsFine none u size key h found =
      let (u', result) = retrieve u size 0 (key ∷ []) in
      pick_result-IsFine result key _ (retrieved-IsAllowed u size 0 (key ∷ []) (key ∷ []) h)
        (λ v i. h.own v (retrieve-In u size 0 (key ∷ []) v i))

  -- A step keeps the rows within the condition, and a row that it logs in to satisfies it.
  pub step-IsFine : (u : Select) (r : Request) → IsAllowed P u → IsFine (step sort_rows u r)
  unfolding step search_or_proxy move_next_page move_pre_page search search_again set_node
      select_assets page_through
  step-IsFine u (next n) h =
      shown-IsFine _
        (if-IsAllowed u.has_next _ u (moved-IsAllowed u n u.current_offset u.search_keys h) h)
  step-IsFine u (previous n) h = shown-IsFine _ (
      if-IsAllowed u.has_pre _ u (moved-IsAllowed u n (u.current_offset - n * 2) u.search_keys h) h)
  step-IsFine u (look n key) h = shown-IsFine _ (retrieved-IsAllowed u n 0 (key ∷ []) (key ∷ []) h)
  step-IsFine u (again n key) h =
      let keys = u.search_keys ++ (key ∷ []) in
      shown-IsFine _ (
        moved-IsAllowed (record u { search_keys = keys }) n 0 keys
          (record { shown = h.shown; own = h.own }))
  step-IsFine u (pick n key) h =
      pick_row-IsFine (chosen_row (atoi key) u.current_result) u n key h
        (λ v e. chosen_row-In (atoi key) u.current_result v e)
  step-IsFine u assets h = (record { shown = h.shown; own = h.own }, λ v e. absurd (cc))
  step-IsFine u (node x) h = (record { shown = h.shown; own = h.own }, λ v e. absurd (cc))
