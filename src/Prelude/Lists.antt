-- ===== src/Prelude/Lists.antt =====
-- Lists measured and indexed by native numbers, under the library's names.
use Prim.Native.Nat.{ℕ, zero, suc, ◌+◌, ◌-◌, ◌≤◌, min}
use mathlib.Core.Path.{◌≡◌, refl, sym, ap, subst}
use mathlib.Core.Logic.{◌⊎◌, inl, inr}
use gojump.Prelude.Tests.{Bool-cases}
use mathlib.Core.Bool.{Bool, true, false, ◌||◌, ◌&&◌}
use mathlib.Core.List.{List, [], ◌∷◌, ◌++◌}
use mathlib.Core.Option.{Option, none, some}
use native.Mathlib.Omega.{arith}

-- `x` stands in the list.
pub data In {A : Type 0} (x : A) : List A → Type 0 where
  head : {xs : List A} → In x (x ∷ xs)
  tail : {y : A} {xs : List A} → In x xs → In x (y ∷ xs)

module _ {ℓ} {A : Type ℓ} where
  abbrev pub length : List A → ℕ
  length [] = 0
  length (x ∷ xs) = suc (length xs)

  abbrev pub get_elem? : List A → ℕ → Option A
  get_elem? [] i = none
  get_elem? (x ∷ xs) zero = some x
  get_elem? (x ∷ xs) (suc i) = get_elem? xs i

  abbrev pub take : ℕ → List A → List A
  take zero xs = []
  take (suc n) [] = []
  take (suc n) (x ∷ xs) = x ∷ take n xs

  abbrev pub drop : ℕ → List A → List A
  drop zero xs = xs
  drop (suc n) [] = []
  drop (suc n) (x ∷ xs) = drop n xs

  -- The predicate holds of some entry: `for … { if p(x) { return true } } return false`.
  abbrev pub any : (A → Bool) → List A → Bool
  any p [] = false
  any p (x ∷ xs) = p x || any p xs

  abbrev pub all : (A → Bool) → List A → Bool
  all p [] = true
  all p (x ∷ xs) = p x && all p xs

  -- `for … { if p(x) { r = append(r, x) } }`
  abbrev pub keep : (A → Bool) → List A → List A
  keep p [] = []
  keep p (x ∷ xs) = let rest = keep p xs in elim (p x) [ true ↦ x ∷ rest | false ↦ rest ]

  abbrev pub All {κ} : (A → Type κ) → List A → Type κ
  All P [] = Unit
  All P (x ∷ xs) = P x × All P xs

  pub length-append : (xs ys : List A) → length (xs ++ ys) ≡ length xs + length ys
  length-append [] ys = omega arith
  length-append (x ∷ xs) ys = omega (arith, length-append xs ys)

  pub length-take : (n : ℕ) (xs : List A) → length (take n xs) ≡ min n (length xs)
  length-take zero xs = omega arith
  length-take (suc n) [] = omega arith
  length-take (suc n) (x ∷ xs) = omega (arith, length-take n xs)

  pub length-drop : (n : ℕ) (xs : List A) → length (drop n xs) ≡ length xs - n
  length-drop zero xs = omega arith
  length-drop (suc n) [] = omega arith
  length-drop (suc n) (x ∷ xs) = omega (arith, length-drop n xs)

  pub take-append-drop : (n : ℕ) (xs : List A) → take n xs ++ drop n xs ≡ xs
  take-append-drop zero xs = refl
  take-append-drop (suc n) [] = refl
  take-append-drop (suc n) (x ∷ xs) = ap (◌∷◌ x) (take-append-drop n xs)

  pub take_all : (n : ℕ) (xs : List A) → length xs ≤ n → take n xs ≡ xs
  take_all zero [] h = refl
  take_all zero (x ∷ xs) h = absurd (omega arith)
  take_all (suc n) [] h = refl
  take_all (suc n) (x ∷ xs) h = ap (◌∷◌ x) (take_all n xs (omega arith))

  pub drop_all : (n : ℕ) (xs : List A) → length xs ≤ n → drop n xs ≡ []
  drop_all zero [] h = refl
  drop_all zero (x ∷ xs) h = absurd (omega arith)
  drop_all (suc n) [] h = refl
  drop_all (suc n) (x ∷ xs) h = drop_all n xs (omega arith)

  pub All-append {κ} : (P : A → Type κ) (xs ys : List A) → All P xs → All P ys → All P (xs ++ ys)
  All-append P [] ys hx hy = hy
  All-append P (x ∷ xs) ys hx hy = (hx.0, All-append P xs ys hx.1 hy)

keep_hit {ℓ} :
    {A : Type ℓ} (p : A → Bool) (x : A) (xs : List A) → p x ≡ true → keep p (x ∷ xs) ≡ x ∷ keep p xs
keep_hit p x xs h = rw (h, keep)

keep_miss {ℓ} :
    {A : Type ℓ} (p : A → Bool) (x : A) (xs : List A) → p x ≡ false → keep p (x ∷ xs) ≡ keep p xs
keep_miss p x xs h = rw (h, keep)

pub In-keep :
    {A : Type 0} (p : A → Bool) (l : List A) (a : A) → In a l → p a ≡ true → In a (keep p l)
In-keep p [] a i h = elim i [ ]
In-keep p (x ∷ xs) a head h = subst (In a) (sym (keep_hit p x xs h)) head
In-keep p (x ∷ xs) a (tail i) h = elim (Bool-cases (p x)) [
  | inl e ↦ subst (In a) (sym (keep_hit p x xs e)) (tail (In-keep p xs a i h))
  | inr e ↦ subst (In a) (sym (keep_miss p x xs e)) (In-keep p xs a i h)
]

In-cons-keep :
    {A : Type 0} (p : A → Bool) (x : A) (xs : List A) (a : A)
    → p x ≡ true
    → (In a (keep p xs) → In a xs × (p a ≡ true))
    → In a (x ∷ keep p xs)
    → In a (x ∷ xs) × (p a ≡ true)
In-cons-keep p x xs a e rest head = (head, e)
In-cons-keep p x xs a e rest (tail i) = (tail (rest i).0, (rest i).1)

pub keep-In :
    {A : Type 0} (p : A → Bool) (l : List A) (a : A) → In a (keep p l) → In a l × (p a ≡ true)
keep-In p [] a i = elim i [ ]
keep-In p (x ∷ xs) a i = elim (Bool-cases (p x)) [
  | inl e ↦ In-cons-keep p x xs a e (keep-In p xs a) (subst (In a) (keep_hit p x xs e) i)
  | inr e ↦ let rest = keep-In p xs a (subst (In a) (keep_miss p x xs e) i) in (tail rest.0, rest.1)
]

-- No entry stands twice.
abbrev pub Nodup : {A : Type 0} → List A → Type 0
Nodup [] = Unit
Nodup (x ∷ xs) = ¬ In x xs × Nodup xs

pub Nodup-keep : {A : Type 0} (p : A → Bool) (xs : List A) → Nodup xs → Nodup (keep p xs)
Nodup-keep p [] n = tt
Nodup-keep p (x ∷ xs) n = elim (Bool-cases (p x)) [
  | inl e ↦ rw (keep_hit p x xs e) (λ i. n.0 (keep-In p xs x i).0, Nodup-keep p xs n.1)
  | inr e ↦ rw (keep_miss p x xs e) (Nodup-keep p xs n.1)
]

pub List-cases {ℓ} : {A : Type ℓ} (l : List A) → (l ≡ []) ⊎ ((x : A) × (xs : List A) × (l ≡ x ∷ xs))
List-cases [] = inl refl
List-cases (x ∷ xs) = inr (x, xs, refl)

pub All-In : {A : Type 0} (P : A → Type 0) (l : List A) (a : A) → All P l → In a l → P a
All-In P [] a h i = elim i [ ]
All-In P (x ∷ xs) a h head = h.0
All-In P (x ∷ xs) a h (tail i) = All-In P xs a h.1 i
