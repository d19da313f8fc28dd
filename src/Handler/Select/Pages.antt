-- ===== src/Handler/Select/Pages.antt =====
-- The pages of a search.
use gojump.Prelude.{
  ℕ, zero, suc, ◌+◌, ◌%◌, ◌<◌, List, [], ◌∷◌, ltb, length, take, drop, length-take, length-drop,
  take_all, drop_all, ◌≡◌, refl, ap, ◌∙◌, arith,
}
use gojump.Core.Assets.{Item}
use gojump.Handler.Page.{page_of, update_page_info}
use gojump.Handler.Page.Laws.{next_page_exact}
use gojump.Handler.Select.{Select, page_through}

module _ (u : Select) (found : List Item) (size offset : ℕ) (some_rows : 0 < size) where
  -- The rows of a page.
  pub page_through-data : (page_through u found size offset).1 ≡ take size (drop offset found)
  unfolding page_through
  page_through-data = ground (
    arith,
    length-drop offset found,
    take_all size (drop offset found),
    drop_all offset found,
    take_all size (drop offset found),
  )

  pub page_through-offset :
      (page_through u found size offset).0.current_offset
      ≡ offset + length (take size (drop offset found))
  unfolding page_through update_page_info
  page_through-offset = ground (arith, ap length page_through-data)

  page_through-has_next :
      (page_through u found size offset).0.has_next
      ≡ ltb
          (page_of (offset + length (take size (drop offset found))) size)
          (page_of (length found) size)
  unfolding page_through update_page_info
  page_through-has_next = ground (arith, ap length page_through-data)

  -- From the start of a page of at least one row, there is a next page exactly when rows are left
  -- behind this one.
  pub has_next_exact :
      offset % size ≡ 0
      → (page_through u found size offset).0.has_next
        ≡ ltb (offset + length (take size (drop offset found))) (length found)
  has_next_exact aligned =
      page_through-has_next
      ∙ next_page_exact offset (length found) size (length (take size (drop offset found)))
          some_rows aligned
          (omega (arith, length-take size (drop offset found), length-drop offset found))

drop_nil {ℓ} : {A : Type ℓ} (n : ℕ) → drop {A = A} n [] ≡ []
drop_nil zero = refl
drop_nil (suc n) = refl

pub drop-drop {ℓ} : {A : Type ℓ} (n m : ℕ) (xs : List A) → drop n (drop m xs) ≡ drop (m + n) xs
drop-drop n zero xs = let e : 0 + n ≡ n = omega arith in rw e
drop-drop n (suc m) [] = let e : suc m + n ≡ suc (m + n) = omega arith in rw e (drop_nil n)
drop-drop n (suc m) (x ∷ xs) =
    let e : suc m + n ≡ suc (m + n) = omega arith in rw e (drop-drop n m xs)
