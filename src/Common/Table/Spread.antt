-- ===== src/Common/Table/Spread.antt =====
-- One pass of the resizing of CalculateColumnsSize, pkg/common/table.go.
use gojump.Prelude.{
  ℕ, ◌+◌, ◌-◌, ◌≤◌, ◌<◌, Str, List, [], ◌∷◌, true, ◌≡◌, ◌≢◌, refl, str_eq, ◌==◌, In, head, tail,
  Nodup, eq_iff, Bool-cases, arith, inl, inr, subst, sym,
}
use gojump.Prelude.Dict.{
  Dict, lookup, insert, delete, get_or, IsMap, insert-IsMap, lookup-insert, str_eq_refl,
}
use gojump.Common.Table.{
  ColumnSize, no_size, Direction, grow, shrink, can_change, move, spread, sum_sizes,
}

-- How a pass may change the width of a column.
pub data Resized (c : ColumnSize) (before after : ℕ) : Direction → Type 0 where
  grown :
      before ≤ after
      → (c.size ≢ 0 → after ≡ before)
      → (c.maximum ≢ 0 → c.maximum < after → after ≡ before)
      → Resized c before after grow
  shrunk :
      after ≤ before
      → (c.size ≢ 0 → after ≡ before)
      → (after < c.minimum → after ≡ before)
      → Resized c before after shrink

pub Resized_refl : (c : ColumnSize) (dir : Direction) (n : ℕ) → Resized c n n dir
Resized_refl c grow n = grown (omega arith) (λ _. refl) (λ _ _. refl)
Resized_refl c shrink n = shrunk (omega arith) (λ _. refl) (λ _. refl)

pub Resized_trans :
    (c : ColumnSize) {dir : Direction} {l m n : ℕ}
    → Resized c l m dir
    → Resized c m n dir
    → Resized c l n dir
Resized_trans c (grown a b d) (grown a' b' d') =
    grown (omega arith) (λ h. ground (arith, b h, b' h)) (λ h g. ground (arith, d' h g, d h))
Resized_trans c (shrunk a b d) (shrunk a' b' d') =
    shrunk (omega arith) (λ h. ground (arith, b h, b' h)) (λ g. ground (arith, d' g, d))

pub move-Resized :
    (c : ColumnSize) (dir : Direction) (n : ℕ)
    → can_change dir c n ≡ true
    → Resized c n (move dir n) dir
unfolding can_change move
move-Resized c grow n h = grown (omega arith) (λ g. ground arith) (λ g k. ground arith)
move-Resized c shrink n h = shrunk (omega arith) (λ g. ground arith) (λ g. ground arith)

sum-delete : (k : Str) (m : Dict ℕ) → IsMap m → sum_sizes (delete k m) + get_or m k 0 ≡ sum_sizes m
unfolding sum_sizes delete lookup
sum-delete k [] h = refl
sum-delete k ((j, v) ∷ m) h = ground (arith, sum-delete k m h.1, eq_iff j k)

sum-insert :
    (k : Str) (v : ℕ) (m : Dict ℕ)
    → IsMap m
    → sum_sizes (insert k v m) + get_or m k 0 ≡ v + sum_sizes m
unfolding sum_sizes insert
sum-insert k v m h = omega (arith, sum-delete k m h)

pub spread-IsMap :
    (dir : Direction) (ks : List Str) (d : ℕ) (m : Dict ℕ) → IsMap m → IsMap (spread dir ks d m).0
unfolding spread
spread-IsMap dir [] d m h = h
spread-IsMap dir (k ∷ ks) d m h = elim (Bool-cases (d - 1 == 0)) [
  | inl e ↦ rw e (insert-IsMap k (move dir (get_or m k 0)) m h)
  | inr e ↦ rw e (spread-IsMap dir ks (d - 1) _ (insert-IsMap k (move dir (get_or m k 0)) m h))
]

spread-le : (dir : Direction) (ks : List Str) (d : ℕ) (m : Dict ℕ) → (spread dir ks d m).1 ≤ d
unfolding spread
spread-le dir [] d m = omega arith
spread-le dir (k ∷ ks) d m =
    ground (arith, spread-le dir ks (d - 1) (insert k (move dir (get_or m k 0)) m))

-- A pass over a column at least uses up something.
pub spread-lt :
    (dir : Direction) (k : Str) (ks : List Str) (d : ℕ) (m : Dict ℕ)
    → 0 < d
    → (spread dir (k ∷ ks) d m).1 < d
unfolding spread
spread-lt dir k ks d m h =
    ground (arith, spread-le dir ks (d - 1) (insert k (move dir (get_or m k 0)) m))

pub spread_grow-sum :
    (ks : List Str) (d : ℕ) (m : Dict ℕ)
    → 0 < d
    → IsMap m
    → sum_sizes (spread grow ks d m).0 + (spread grow ks d m).1 ≡ sum_sizes m + d
unfolding spread move
spread_grow-sum [] d m p h = refl
spread_grow-sum (k ∷ ks) d m p h = ground (
  arith,
  sum-insert k (get_or m k 0 + 1) m h,
  spread_grow-sum ks (d - 1) (insert k (get_or m k 0 + 1) m),
  insert-IsMap k (get_or m k 0 + 1) m h,
)

get-insert_other :
    (k j : Str) (v : ℕ) (m : Dict ℕ) → k ≢ j → get_or (insert k v m) j 0 ≡ get_or m j 0
get-insert_other k j v m h = ground (arith, lookup-insert k j v m, eq_iff k j)

get-insert_same : (k : Str) (v : ℕ) (m : Dict ℕ) → get_or (insert k v m) k 0 ≡ v
get-insert_same k v m = ground (arith, lookup-insert k k v m, str_eq_refl k)

In-ne : {k j : Str} {ks : List Str} → ¬ In k ks → In j ks → k ≢ j
In-ne {ks} n i e = n (subst (λ x. In x ks) (sym e) i)

-- Each of the columns can change.
abbrev pub CanChange : Dict ColumnSize → Direction → Dict ℕ → List Str → Type 0
CanChange defs dir m ks =
    (j : Str) → In j ks → can_change dir (get_or defs j no_size) (get_or m j 0) ≡ true

module _ (defs : Dict ColumnSize) (dir : Direction) where
  rest-CanChange :
      (k : Str) (ks : List Str) (v : ℕ) (m : Dict ℕ)
      → ¬ In k ks
      → CanChange defs dir m (k ∷ ks)
      → CanChange defs dir (insert k v m) ks
  rest-CanChange k ks v m n all j i =
      subst (λ x. can_change dir (get_or defs j no_size) x ≡ true)
        (sym (get-insert_other k j v m (In-ne n i))) (all j (tail i))

  insert-Resized :
      (k j : Str) (m : Dict ℕ)
      → can_change dir (get_or defs k no_size) (get_or m k 0) ≡ true
      → Resized
          (get_or defs j no_size)
          (get_or m j 0)
          (get_or (insert k (move dir (get_or m k 0)) m) j 0)
          dir
  insert-Resized k j m can = elim (Bool-cases (str_eq k j)) [
    | inl e ↦
        subst
          (λ i.
            Resized (get_or defs i no_size) (get_or m i 0)
              (get_or (insert k (move dir (get_or m k 0)) m) i 0) dir)
          ((eq_iff k j).0 e)
          (subst (λ n. Resized (get_or defs k no_size) (get_or m k 0) n dir)
            (sym (get-insert_same k (move dir (get_or m k 0)) m))
            (move-Resized (get_or defs k no_size) dir (get_or m k 0) can))
    | inr e ↦
        subst (λ n. Resized (get_or defs j no_size) (get_or m j 0) n dir)
          (sym (get-insert_other k j (move dir (get_or m k 0)) m (ground (arith, eq_iff k j))))
          (Resized_refl _ dir _)
  ]

  pub spread-Resized :
      (ks : List Str) (d : ℕ) (m : Dict ℕ)
      → Nodup ks
      → CanChange defs dir m ks
      → (j : Str)
      → Resized (get_or defs j no_size) (get_or m j 0) (get_or (spread dir ks d m).0 j 0) dir
  unfolding spread
  spread-Resized [] d m n all j = Resized_refl _ dir _
  spread-Resized (k ∷ ks) d m n all j = elim (Bool-cases (d - 1 == 0)) [
    | inl e ↦ rw e (insert-Resized k j m (all k head))
    | inr e ↦ rw e (
        Resized_trans _ (insert-Resized k j m (all k head))
          (spread-Resized ks (d - 1) _ n.1 (rest-CanChange k ks _ m n.0 all) j))
  ]

pub spread_shrink-sum :
    (defs : Dict ColumnSize) (ks : List Str) (d : ℕ) (m : Dict ℕ)
    → 0 < d
    → IsMap m
    → Nodup ks
    → CanChange defs shrink m ks
    → sum_sizes (spread shrink ks d m).0 + d ≡ sum_sizes m + (spread shrink ks d m).1
unfolding spread move can_change
spread_shrink-sum defs [] d m p h n all = refl
spread_shrink-sum defs (k ∷ ks) d m p h n all = ground (
  arith,
  sum-insert k (get_or m k 0 - 1) m h,
  spread_shrink-sum defs ks (d - 1) (insert k (get_or m k 0 - 1) m),
  insert-IsMap k (get_or m k 0 - 1) m h,
  all k head,
  n.1,
  rest-CanChange defs shrink k ks (get_or m k 0 - 1) m n.0 all,
)
