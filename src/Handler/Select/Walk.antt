-- ===== src/Handler/Select/Walk.antt =====
-- Paging with Search and MoveNextPage of pkg/handler/selectHandler.go.
use mathlib.Core.List.{Perm}
use mathlib.Core.List.Perm
use native.Mathlib.Nat.{add-mod_right}
use gojump.Prelude.{
  ℕ, zero, suc, ◌+◌, ◌-◌, ◌%◌, ◌<◌, Str, List, [], ◌∷◌, ◌++◌, Bool, true, false, ltb, length, take,
  drop, length-take, length-drop, drop_all, ◌≡◌, ◌≢◌, refl, sym, ap, ◌∙◌, subst, arith, Bool-cases,
  inl, inr,
}
use gojump.Core.Assets.{Item}
use gojump.Handler.Select.{
  SelectType, unset, type_asset, type_node_asset, Select, page_through, retrieve_local, retrieve,
  sorted_page, display_as, display_current_result, move_next_page, search,
}
use gojump.Handler.Select.Pages.{page_through-data, page_through-offset, has_next_exact, drop-drop}

take-drop-length {ℓ} :
    {A : Type ℓ} (n : ℕ) (l : List A) → take n l ++ drop (length (take n l)) l ≡ l
take-drop-length zero [] = refl
take-drop-length zero (x ∷ xs) = refl
take-drop-length (suc n) [] = refl
take-drop-length (suc n) (x ∷ xs) =
    let e : length (take n xs) + 1 ≡ suc (length (take n xs)) = omega arith in
    ap (◌∷◌ x) (take-drop-length n xs)

-- The rows that the client's search finds in all.
abbrev pub found_rows : Select → List Str → List Item
found_rows u keys = (retrieve_local u.current_type u keys).1

zero_mod : (n : ℕ) → 0 < n → 0 % n ≡ 0
zero_mod n h = omega arith

module _ (sort_rows : List Item → List Item) where
  -- The pages that "next" brings, as they are shown, as long as there is a next one.
  abbrev pub next_pages : ℕ → Select → ℕ → List Item
  next_pages zero u size = []
  next_pages (suc fuel) u size =
      let u' = move_next_page sort_rows u size in
      let rest = next_pages fuel u' size in
      elim u.has_next [ false ↦ [] | true ↦ u'.current_result ++ rest ]

  -- Where that ends.
  abbrev pub last_page : ℕ → Select → ℕ → Select
  last_page zero u size = u
  last_page (suc fuel) u size =
      let rest = last_page fuel (move_next_page sort_rows u size) size in
      elim u.has_next [ false ↦ u | true ↦ rest ]

  next_pages_more :
      (fuel : ℕ) (u u' : Select) (size : ℕ)
      → u.has_next ≡ true
      → move_next_page sort_rows u size ≡ u'
      → (next_pages (suc fuel) u size ≡ u'.current_result ++ next_pages fuel u' size)
        × (last_page (suc fuel) u size ≡ last_page fuel u' size)
  next_pages_more fuel u u' size more same =
      let moved = move_next_page sort_rows u size in
      let pages = moved.current_result ++ next_pages fuel moved size in
      let last = last_page fuel moved size in
      (
        ap (λ (b : Bool). elim b as (λ x. List Item) [ false ↦ [] | true ↦ pages ]) more
            ∙ ap (λ v. v.current_result ++ next_pages fuel v size) same,
        ap (λ (b : Bool). elim b as (λ x. Select) [ false ↦ u | true ↦ last ]) more
            ∙ ap (λ v. last_page fuel v size) same,
      )

  abbrev shown : Select → List Item → ℕ → ℕ → List Str → Select
  shown u found size offset keys =
      let (u', rows) = page_through u found size offset in
      record u' { current_result = sorted_page sort_rows rows; search_keys = keys }

  next_shown :
      (u : Select) (size : ℕ)
      → u.current_type ≢ unset
      → u.has_next ≡ true
      → move_next_page sort_rows u size
        ≡ shown u (found_rows u u.search_keys) size u.current_offset u.search_keys
  unfolding move_next_page display_current_result display_as retrieve retrieve_local page_through
  next_shown u size typed more = by_type u.current_type refl
    where
      by_type :
          (t : SelectType)
          → u.current_type ≡ t
          → move_next_page sort_rows u size
            ≡ shown u (found_rows u u.search_keys) size u.current_offset u.search_keys
      by_type unset q = absurd (typed q)
      by_type type_asset q = ground (arith, q, more)
      by_type type_node_asset q = ground (arith, q, more)

  search_shown :
      (u : Select) (size : ℕ) (key : Str)
      → u.current_type ≢ unset
      → search sort_rows u size key ≡ shown u (found_rows u (key ∷ [])) size 0 (key ∷ [])
  unfolding search display_current_result display_as retrieve retrieve_local page_through
  search_shown u size key typed = by_type u.current_type refl
    where
      by_type :
          (t : SelectType)
          → u.current_type ≡ t
          → search sort_rows u size key ≡ shown u (found_rows u (key ∷ [])) size 0 (key ∷ [])
      by_type unset q = absurd (typed q)
      by_type type_asset q = ground (arith, q)
      by_type type_node_asset q = ground (arith, q)

  -- The search and its state behind a page.
  record IsBehind (u : Select) (found : List Item) (size : ℕ) : Type 0 where
    typed : u.current_type ≢ unset
    rows : found_rows u u.search_keys ≡ found
    more : u.has_next ≡ ltb u.current_offset (length found)
    aligned : u.has_next ≡ true → u.current_offset % size ≡ 0

  shown-rows :
      (u : Select) (found : List Item) (size offset : ℕ) (keys : List Str)
      → u.current_type ≢ unset
      → ((shown u found size offset keys).current_type ≢ unset)
        × (found_rows (shown u found size offset keys) keys ≡ found_rows u keys)
  unfolding page_through retrieve_local
  shown-rows u found size offset keys typed = (typed, by_type u.current_type refl)
    where
      by_type :
          (t : SelectType)
          → u.current_type ≡ t
          → found_rows (shown u found size offset keys) keys ≡ found_rows u keys
      by_type unset q = absurd (typed q)
      by_type type_asset q = ground (arith, q)
      by_type type_node_asset q = ground (arith, q)

  shown-IsBehind :
      (u : Select) (found : List Item) (size offset : ℕ) (keys : List Str)
      → 0 < size
      → offset % size ≡ 0
      → u.current_type ≢ unset
      → found_rows u keys ≡ found
      → IsBehind (shown u found size offset keys) found size
  shown-IsBehind u found size offset keys pos aligned typed rows =
      let at = page_through-offset u found size offset pos in
      let next = has_next_exact u found size offset pos aligned in
      let same = shown-rows u found size offset keys typed in
      record {
        typed = same.0;
        rows = same.1 ∙ rows;
        more = next ∙ ap (λ (k : ℕ). ltb k (length found)) (sym at);
        aligned = λ h.
            let full : length (take size (drop offset found)) ≡ size =
              ground
                (arith, h, next, length-take size (drop offset found), length-drop offset found) in
            ap (λ (k : ℕ). k % size) at
            ∙ ap (λ (k : ℕ). (offset + k) % size) full
            ∙ add-mod_right offset size
            ∙ aligned;
      }

  module _ (sort_perm : (l : List Item) → Perm (sort_rows l) l) where
    sorted-Perm : (l : List Item) → Perm (sorted_page sort_rows l) l
    unfolding sorted_page
    sorted-Perm [] = Perm.refl []
    sorted-Perm (x ∷ xs) = sort_perm (x ∷ xs)

    -- A page and all that follows it.
    with_rest :
        (u : Select) (found rest : List Item) (size offset : ℕ) (keys : List Str)
        → 0 < size
        → Perm rest (drop (shown u found size offset keys).current_offset found)
        → Perm ((shown u found size offset keys).current_result ++ rest) (drop offset found)
    with_rest u found rest size offset keys pos p =
        let page = take size (drop offset found) in
        let at = page_through-offset u found size offset pos in
        let same : drop (shown u found size offset keys).current_offset found
            ≡ drop (length page) (drop offset found) =
          ap (λ (k : ℕ). drop k found) at ∙ sym (drop-drop (length page) offset found) in
        subst (λ l. Perm ((shown u found size offset keys).current_result ++ rest) l)
          (take-drop-length size (drop offset found))
          (Perm.append
            (subst (λ l. Perm (sorted_page sort_rows l) page)
              (sym (page_through-data u found size offset pos)) (sorted-Perm page))
            (subst (λ l. Perm rest l) same p))

    next_pages-Perm :
        (fuel : ℕ) (u : Select) (found : List Item) (size : ℕ)
        → 0 < size
        → IsBehind u found size
        → length found - u.current_offset < fuel
        → Perm (next_pages fuel u size) (drop u.current_offset found)
          × ((last_page fuel u size).has_next ≡ false)
    next_pages-Perm zero u found size pos b f = absurd (omega arith)
    next_pages-Perm (suc fuel) u found size pos b f = elim (Bool-cases u.has_next) [
      | inr last ↦
          let none_left : drop u.current_offset found ≡ [] =
            drop_all u.current_offset found (ground (arith, b.more, last)) in
          (rw (last, none_left) (Perm.refl []), rw last refl)
      | inl more ↦
          let o = u.current_offset in
          let u' = shown u found size o u.search_keys in
          let same : move_next_page sort_rows u size ≡ u' =
            next_shown u size b.typed more ∙ ap (λ l. shown u l size o u.search_keys) b.rows in
          let at = page_through-offset u found size o pos in
          let behind =
            shown-IsBehind u found size o u.search_keys pos (b.aligned more) b.typed b.rows in
          let steps = next_pages_more fuel u u' size more same in
          let ih = next_pages-Perm fuel u' found size pos behind (
            ground
              (arith, at, b.more, more, length-take size (drop o found), length-drop o found)) in
          (
            subst (λ l. Perm l (drop o found)) (sym steps.0)
                (with_rest u found (next_pages fuel u' size) size o u.search_keys pos ih.0),
            ap (λ v. v.has_next) steps.1 ∙ ih.1,
          )
    ]

    -- For a client whose table has a type, pages of at least one row, and a sort that permutes the
    -- page: the page that a search shows and the pages that "next" then brings, as long as there is a
    -- next one, hold every row that was found exactly as often as the search found it; with one step
    -- more than the rows there is then no next page.
    pub walk_all :
        (u : Select) (size : ℕ) (key : Str)
        → 0 < size
        → u.current_type ≢ unset
        → let found = found_rows u (key ∷ []) in
          let first = search sort_rows u size key in
          let fuel = length found + 1 in
          Perm (first.current_result ++ next_pages fuel first size) found
          × ((last_page fuel first size).has_next ≡ false)
    walk_all u size key pos typed =
        let found = found_rows u (key ∷ []) in
        let first = shown u found size 0 (key ∷ []) in
        let behind = shown-IsBehind u found size 0 (key ∷ []) pos (zero_mod size pos) typed refl in
        let rest = next_pages-Perm (length found + 1) first found size pos behind (omega arith) in
        rw (search_shown u size key typed) (
          with_rest u found (next_pages (length found + 1) first size) size 0 (key ∷ []) pos rest.0,
          rest.1,
        )
