-- ===== src/Handler/Page/Laws.antt =====
-- Counting pages.
use Prim.Native.Nat.{min}
use native.Mathlib.Nat.{add-mod_right}
use gojump.Prelude.{
  ℕ, ◌+◌, ◌*◌, ◌/◌, ◌%◌, ◌≤◌, ◌<◌, false, ltb, leb, ◌-◌, sym, ◌∙◌, ◌==◌, ◌≡◌, arith, Bool-cases,
  inl, inr,
}
use gojump.Handler.Page.{page_of}

mul_lt_cancel : (a b p : ℕ) → a * p < b * p → a < b
mul_lt_cancel a b p h = elim (Bool-cases (ltb a b)) [
  | inl e ↦ ground arith
  | inr e ↦
      let le : b ≤ a = ground arith in
      let scaled : b * p ≤ a * p = grind arith in absurd (omega arith)
]

-- The page count is the least number of pages, of at least one row each, that holds everything.
pub page_of_bounds :
    (n size : ℕ) → 0 < size → (n ≤ page_of n size * size) × (page_of n size * size < n + size)
unfolding page_of
page_of_bounds n size h = elim (Bool-cases (n % size == 0)) [
  | inl e ↦ let r : n % size ≡ 0 = ground arith in rw e (omega arith, omega arith)
  | inr e ↦ let r : 0 < n % size = ground arith in rw e (omega arith, omega arith)
]

page_of_exact : (n size : ℕ) → n % size ≡ 0 → page_of n size ≡ n / size
unfolding page_of
page_of_exact n size h = rw h

-- After whole pages there is a next page exactly when something is left.
pub page_lt :
    (c t size : ℕ) → 0 < size → c % size ≡ 0 → ltb (page_of c size) (page_of t size) ≡ ltb c t
page_lt c t size h e =
    let k = page_of c size in
    let p = page_of t size in
    let whole : k * size ≡ c = rw (page_of_exact c size e) (omega arith) in
    let bounds = page_of_bounds t size h in
    elim (Bool-cases (ltb c t)) [
      | inl more ↦
          let scaled : k * size < p * size = ground (arith, bounds.0) in
          ground (arith, mul_lt_cancel k p size scaled)
      | inr none_left ↦
          let scaled : p * size < (k + 1) * size = ground (arith, bounds.1) in
          ground (arith, mul_lt_cancel p (k + 1) size scaled)
    ]

ltb_irrefl : (n : ℕ) → ltb n n ≡ false
ltb_irrefl n = ground arith

-- From the start of a page that shows `n` rows of `t` there is a next page exactly when rows are left.
pub next_page_exact :
    (o t size n : ℕ)
    → 0 < size
    → o % size ≡ 0
    → n ≡ min size (t - o)
    → ltb (page_of (o + n) size) (page_of t size) ≡ ltb (o + n) t
next_page_exact o t size n h e m = elim (Bool-cases (leb (o + size) t)) [
  | inl full ↦
      let whole : n ≡ size = ground arith in
      let aligned : (o + n) % size ≡ 0 = rw whole (add-mod_right o size ∙ e) in
      page_lt (o + n) t size h aligned
  | inr partial ↦ elim (Bool-cases (leb o t)) [
    | inl inside ↦
        let end : o + n ≡ t = ground arith in
        rw end (ltb_irrefl (page_of t size) ∙ sym (ltb_irrefl t))
    | inr outside ↦
        let none_shown : o + n ≡ o = ground arith in
        let aligned : (o + n) % size ≡ 0 = rw none_shown e in page_lt (o + n) t size h aligned
  ]
]
