-- ===== src/Common/Table/Layout.antt =====
-- CalculateColumnsSize of pkg/common/table.go: the loop ends, and where the widths end up.
use gojump.Prelude.{
  ℕ, zero, suc, ◌+◌, ◌<◌, Str, List, [], ◌∷◌, ◌≡◌, ◌≢◌, refl, ◌⊎◌, In, Nodup, arith, inl, inr, some,
  subst, Bool-cases, keep-In, In-keep, keep, map, Bool, false, Nodup-keep, List-cases,
}
use gojump.Prelude.Int.{ℤ, pos, negsuc, ◌-ℤ◌}
use gojump.Prelude.Dict.{Dict, get_or, IsMap, insert-IsMap}
use gojump.Common.Table.{
  WrapperTable, ColumnSize, no_size, Direction, grow, shrink, change_cols, can_change, spread,
  sum_sizes, data_col_max_size, resize, resize_by, data_sizes, inner_size, calculate_columns_size,
  wanted, wanted_sizes,
}
use gojump.Common.Table.Spread.{
  Resized, Resized_refl, Resized_trans, CanChange, spread-IsMap, spread-lt, spread_grow-sum,
  spread_shrink-sum, spread-Resized,
}

-- The total moves by what was used up of `delta`.
abbrev pub Moved : Direction → (before delta after left : ℕ) → Type 0
Moved grow before delta after left = after + left ≡ before + delta
Moved shrink before delta after left = after + delta ≡ before + left

-- No column that a round visits can change.
abbrev pub IsStuck : Dict ColumnSize → (ℕ → List Str) → Direction → Dict ℕ → Type 0
IsStuck defs visit dir sizes = (round : ℕ) × (change_cols defs visit dir round sizes ≡ [])

pub record IsResizedTo (defs : Dict ColumnSize) (visit : ℕ → List Str) (dir : Direction) (delta : ℕ)
    (before : Dict ℕ) (r : Dict ℕ × ℕ) : Type 0 where
  pub distinct : IsMap r.0
  pub total : Moved dir (sum_sizes before) delta (sum_sizes r.0) r.1
  pub finished : (r.1 ≡ 0) ⊎ IsStuck defs visit dir r.0
  pub columns : (j : Str) → Resized (get_or defs j no_size) (get_or before j 0) (get_or r.0 j 0) dir

Moved-refl : (dir : Direction) (n d : ℕ) → Moved dir n d n d
Moved-refl grow n d = refl
Moved-refl shrink n d = refl

Moved-trans :
    (dir : Direction) (a d b e c f : ℕ) → Moved dir a d b e → Moved dir b e c f → Moved dir a d c f
Moved-trans grow a d b e c f h k = omega arith
Moved-trans shrink a d b e c f h k = omega arith

module _ (defs : Dict ColumnSize) (visit : ℕ → List Str) (once : (r : ℕ) → Nodup (visit r)) where
  change_cols-CanChange :
      (dir : Direction) (round : ℕ) (m : Dict ℕ)
      → CanChange defs dir m (change_cols defs visit dir round m)
  unfolding change_cols
  change_cols-CanChange dir round m j i = (keep-In _ (visit round) j i).1

  change_cols-Nodup :
      (dir : Direction) (round : ℕ) (m : Dict ℕ) → Nodup (change_cols defs visit dir round m)
  unfolding change_cols
  change_cols-Nodup dir round m = Nodup-keep _ (visit round) (once round)

  spread-Moved :
      (dir : Direction) (ks : List Str) (d : ℕ) (m : Dict ℕ)
      → 0 < d
      → IsMap m
      → Nodup ks
      → CanChange defs dir m ks
      → Moved dir (sum_sizes m) d (sum_sizes (spread dir ks d m).0) (spread dir ks d m).1
  spread-Moved grow ks d m p h n all = spread_grow-sum ks d m p h
  spread-Moved shrink ks d m p h n all = spread_shrink-sum defs ks d m p h n all

  -- The fuel is enough when it exceeds `delta`, which falls in each round.
  pub resize-IsResizedTo :
      (fuel : ℕ) (dir : Direction) (round d : ℕ) (m : Dict ℕ)
      → d < fuel
      → IsMap m
      → (r : Dict ℕ × ℕ) × (resize defs visit fuel dir round d m ≡ some r)
        × IsResizedTo defs visit dir d m r
  unfolding resize
  resize-IsResizedTo zero dir round d m lt h = absurd (omega arith)
  resize-IsResizedTo (suc fuel) dir round zero m lt h = (
    (m, zero),
    refl,
    record {
      distinct = h;
      total = Moved-refl dir (sum_sizes m) zero;
      finished = inl refl;
      columns = λ j. Resized_refl _ dir _;
    },
  )
  resize-IsResizedTo (suc fuel) dir round (suc d) m lt h =
      elim (List-cases (change_cols defs visit dir round m)) [
        | inl e ↦ (
          (m, suc d),
          rw (e, resize),
          record {
            distinct = h;
            total = Moved-refl dir (sum_sizes m) (suc d);
            finished = inr (round, e);
            columns = λ j. Resized_refl _ dir _;
          },
        )
        | inr (k, ks, e) ↦
            let can = subst (CanChange defs dir m) e (change_cols-CanChange dir round m) in
            let nodup = subst Nodup e (change_cols-Nodup dir round m) in
            let (m', left) = spread dir (k ∷ ks) (suc d) m in
            let less = spread-lt dir k ks (suc d) m (omega arith) in
            let (r, runs, ok) =
              resize-IsResizedTo fuel dir (round + 1) left m' (omega arith)
                (spread-IsMap dir (k ∷ ks) (suc d) m h) in
            (
              r,
              rw (e, resize) runs,
              record {
                distinct = ok.distinct;
                total =
                    Moved-trans dir _ _ _ _ _ _
                      (spread-Moved dir (k ∷ ks) (suc d) m (omega arith) h nodup can) ok.total;
                finished = ok.finished;
                columns = λ j.
                    Resized_trans _ (spread-Resized defs dir (k ∷ ks) (suc d) m nodup can j)
                      (ok.columns j);
              },
            )
      ]

wanted_sizes-IsMap :
    (defs : Dict ColumnSize) (m sizes : Dict ℕ) → IsMap sizes → IsMap (wanted_sizes defs m sizes)
unfolding wanted_sizes
wanted_sizes-IsMap defs [] sizes h = h
wanted_sizes-IsMap defs ((k, v) ∷ m) sizes h =
    wanted_sizes-IsMap defs m _ (insert-IsMap k (wanted (get_or defs k no_size) v) sizes h)

data_sizes-IsMap : (t : WrapperTable) → IsMap (data_sizes t)
unfolding data_sizes
data_sizes-IsMap t = wanted_sizes-IsMap t.fields_size (data_col_max_size t.fields t.rows []) [] tt

-- `step`: shrink for a negative difference.
abbrev pub direction : ℤ → Direction
direction (pos n) = grow
direction (negsuc n) = shrink

keep_none :
    {A : Type 0} (p : A → Bool) (xs : List A) (x : A) → keep p xs ≡ [] → In x xs → p x ≡ false
keep_none p xs x e i = elim (Bool-cases (p x)) [
  | inl h ↦ elim (subst (In x) e (In-keep p xs x i h)) [ ]
  | inr h ↦ h
]

-- The keys that `defs` holds.
abbrev pub keys : Dict ColumnSize → List Str
keys defs = map (λ p. p.0) defs

-- The order of the visits: each key, once.
pub record IsRange (defs : Dict ColumnSize) (visit : ℕ → List Str) : Type 0 where
  pub once : (r : ℕ) → Nodup (visit r)
  pub every : (r : ℕ) (k : Str) → In k (keys defs) → In k (visit r)

-- No column that is set can change.
abbrev pub NoneCanChange : Dict ColumnSize → Direction → Dict ℕ → Type 0
NoneCanChange defs dir sizes =
    (k : Str) → In k (keys defs) → can_change dir (get_or defs k no_size) (get_or sizes k 0) ≡ false

stuck-NoneCanChange :
    (defs : Dict ColumnSize) (visit : ℕ → List Str) (dir : Direction) (sizes : Dict ℕ)
    → IsRange defs visit
    → IsStuck defs visit dir sizes
    → NoneCanChange defs dir sizes
unfolding change_cols
stuck-NoneCanChange defs visit dir sizes range (round, e) k i =
    keep_none _ (visit round) k e (range.every round k i)

pub record IsLaidOut (t : WrapperTable) (delta : ℤ) (sizes : Dict ℕ) : Type 0 where
  pub fills :
      (inner_size t ≡ pos (sum_sizes sizes)) ⊎ NoneCanChange t.fields_size (direction delta) sizes
  pub columns :
      (j : Str)
      → Resized
          (get_or t.fields_size j no_size)
          (get_or (data_sizes t) j 0)
          (get_or sizes j 0)
          (direction delta)

abbrev Delta : WrapperTable → ℤ → Type 0
Delta t delta = inner_size t -ℤ pos (sum_sizes (data_sizes t)) ≡ delta

grow_exact : (a : ℤ) (c n s : ℕ) → a -ℤ pos c ≡ pos n → s + 0 ≡ c + n → a ≡ pos s
grow_exact (pos x) c n s e h = ground arith
grow_exact (negsuc x) c n s e h = ground arith

shrink_exact : (a : ℤ) (c n s : ℕ) → a -ℤ pos c ≡ negsuc n → s + suc n ≡ c + 0 → a ≡ pos s
shrink_exact (pos x) c n s e h = ground arith
shrink_exact (negsuc x) c n s e h = ground arith

module _ (visit : ℕ → List Str) (t : WrapperTable) (range : IsRange t.fields_size visit) where
  IsResizedTo-IsLaidOut :
      (delta : ℤ) (d : ℕ) (r : Dict ℕ × ℕ)
      → (Moved (direction delta) (sum_sizes (data_sizes t)) d (sum_sizes r.0) 0
          → inner_size t ≡ pos (sum_sizes r.0))
      → IsResizedTo t.fields_size visit (direction delta) d (data_sizes t) r
      → IsLaidOut t delta r.0
  IsResizedTo-IsLaidOut delta d r exact ok = record {
    fills = elim ok.finished [
      | inl e ↦ inl (
          exact (
            subst (λ n. Moved (direction delta) (sum_sizes (data_sizes t)) d (sum_sizes r.0) n) e
              ok.total))
      | inr stuck ↦ inr (stuck-NoneCanChange t.fields_size visit _ r.0 range stuck)
    ];
    columns = ok.columns;
  }

  resize_by-IsLaidOut :
      (delta : ℤ)
      → Delta t delta
      → (r : Dict ℕ × ℕ) × (resize_by t.fields_size visit delta (data_sizes t) ≡ some r)
        × IsLaidOut t delta r.0
  unfolding resize_by
  resize_by-IsLaidOut (pos n) e =
      let (r, runs, ok) =
        resize-IsResizedTo t.fields_size visit range.once (n + 1) grow 0 n (data_sizes t)
          (omega arith) (data_sizes-IsMap t) in
      (
        r,
        runs,
        IsResizedTo-IsLaidOut (pos n) n r
            (λ h. grow_exact (inner_size t) (sum_sizes (data_sizes t)) n (sum_sizes r.0) e h) ok,
      )
  resize_by-IsLaidOut (negsuc n) e =
      let (r, runs, ok) =
        resize-IsResizedTo t.fields_size visit range.once (n + 2) shrink 0 (suc n) (data_sizes t)
          (omega arith) (data_sizes-IsMap t) in
      (
        r,
        runs,
        IsResizedTo-IsLaidOut (negsuc n) (suc n) r
            (λ h. shrink_exact (inner_size t) (sum_sizes (data_sizes t)) n (sum_sizes r.0) e h) ok,
      )

  -- On a terminal of some width, the loop over the columns ends, for every order of the visits. Then
  -- the widths fill the space between the borders exactly, or no column can go on changing. A column
  -- with a set width keeps it, no column grows past its greatest width, and none shrinks below its
  -- least.
  pub columns-IsLaidOut :
      t.total_size ≢ 0
      → (sizes : Dict ℕ) × (left : ℕ) × (calculate_columns_size visit t
          ≡ some (inner_size t, sizes, left))
        × IsLaidOut t (inner_size t -ℤ pos (sum_sizes (data_sizes t))) sizes
  unfolding calculate_columns_size
  columns-IsLaidOut wide =
      let (r, runs, ok) =
        resize_by-IsLaidOut (inner_size t -ℤ pos (sum_sizes (data_sizes t))) refl in
      (r.0, r.1, ground (arith, runs), ok)
