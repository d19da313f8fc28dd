-- ===== src/Common/Table.antt =====
-- The layout of pkg/common/table.go: Initial, CalculateColumnsSize, convertDataToSlice and
-- GetValidString. Widths are counted in bytes, and configured widths are not negative. Outside the
-- program are: `visit`, the order in which the `range` of a round visits the keys of FieldsSize,
-- and `valid` (utf8.ValidString). The drawing of the table (tablewriter) is not modelled.
pub mod Spread
pub mod Layout
pub mod Cells
use gojump.Prelude.{
  ℕ, zero, suc, ◌+◌, ◌-◌, ◌*◌, Str, List, [], ◌∷◌, ◌++◌, map, Bool, true, false, not, ◌&&◌, ◌||◌,
  Option, none, some, if◌then◌else◌, ltb, leb, ◌==◌, codes, keep, length, take, drop,
}
use gojump.Prelude.Int.{ℤ, pos, negsuc, ◌-ℤ◌, half}
use gojump.Prelude.Dict.{Dict, lookup, insert, get_or}

pub data TruncPolicy : Type 0 where
  trunc_suffix trunc_prefix trunc_middle : TruncPolicy

-- `[3]int`: the width, the least and the greatest width; 0 stands for none.
pub record ColumnSize : Type 0 where
  pub size : ℕ
  pub minimum : ℕ
  pub maximum : ℕ

abbrev pub no_size : ColumnSize
no_size = record { size = 0; minimum = 0; maximum = 0 }

pub record WrapperTable : Type 0 where
  pub labels : Option (List Str)
  pub fields : List Str
  pub fields_size : Dict ColumnSize
  pub rows : List (Dict Str)
  pub total_size : ℕ
  pub trunc_policy : TruncPolicy

-- The loop of Initial: no column is narrower than its title.
unfoldable pub widen : List Str → List Str → Dict ColumnSize → Dict ColumnSize
widen [] labels m = m
widen (k ∷ ks) [] m = m
widen (k ∷ ks) (label ∷ labels) m =
    let define = get_or m k no_size in
    widen ks labels (
      if ltb define.minimum (length label)
      then insert k (record define { minimum = length label }) m
      else m)

-- Labels that are not set are the fields.
labels_or : Option (List Str) → List Str → List Str
labels_or none fields = fields
labels_or (some labels) fields = labels

-- `none` is the panic on labels of another number.
unfoldable pub initial : WrapperTable → Option WrapperTable
unfolding widen labels_or
initial t =
    let labels = labels_or t.labels t.fields in
    if length t.fields == length labels
    then some (record t { labels = some labels; fields_size = widen t.fields labels t.fields_size })
    else none

-- The widest value of each column.
note_cell : Dict Str → Str → Dict ℕ → Dict ℕ
note_cell row col m = elim (lookup col row) [
  | none ↦ m
  | some value ↦ elim (lookup col m) [
    | none ↦ insert col (length value) m
    | some pre ↦ if ltb pre (length value) then insert col (length value) m else m
  ]
]

note_row : Dict Str → List Str → Dict ℕ → Dict ℕ
note_row row [] m = m
note_row row (col ∷ cols) m = note_row row cols (note_cell row col m)

data_col_max_size : List Str → List (Dict Str) → Dict ℕ → Dict ℕ
data_col_max_size cols [] m = m
data_col_max_size cols (row ∷ rows) m = data_col_max_size cols rows (note_row row cols m)

-- The width that a column asks for, from the widest value `v`.
unfoldable pub wanted : ColumnSize → ℕ → ℕ
wanted c v =
    if not (c.size == 0)
    then c.size
    else if not (c.maximum == 0) && ltb c.maximum v
    then c.maximum
    else if not (c.minimum == 0) && ltb v c.minimum
    then c.minimum
    else v

wanted_sizes : Dict ColumnSize → Dict ℕ → Dict ℕ → Dict ℕ
wanted_sizes defs [] sizes = sizes
wanted_sizes defs ((k, v) ∷ m) sizes =
    wanted_sizes defs m (insert k (wanted (get_or defs k no_size) v) sizes)

unfoldable pub sum_sizes : Dict ℕ → ℕ
sum_sizes [] = 0
sum_sizes ((k, v) ∷ m) = v + sum_sizes m

-- `step`: 1 or -1.
pub data Direction : Type 0 where
  grow shrink : Direction

unfoldable pub can_change : Direction → ColumnSize → ℕ → Bool
can_change grow c v = c.size == 0 && not (not (c.maximum == 0) && leb c.maximum v)
can_change shrink c v = c.size == 0 && not (leb v c.minimum)

unfoldable pub move : Direction → ℕ → ℕ
move grow v = v + 1
move shrink v = v - 1

-- One pass over the columns that can change: the widths and what is left of `delta`.
unfoldable pub spread : Direction → List Str → ℕ → Dict ℕ → Dict ℕ × ℕ
unfolding move
spread dir [] delta sizes = (sizes, delta)
spread dir (k ∷ ks) delta sizes =
    let sizes' = insert k (move dir (get_or sizes k 0)) sizes in
    let rest = spread dir ks (delta - 1) sizes' in if delta - 1 == 0 then (sizes', 0) else rest

module _ (defs : Dict ColumnSize) (visit : ℕ → List Str) where
  unfoldable pub change_cols : Direction → ℕ → Dict ℕ → List Str
  change_cols dir round sizes =
      keep (λ k. can_change dir (get_or defs k no_size) (get_or sizes k 0)) (visit round)

  -- `for delta > 0`, which also ends when no column can change. `none`: the fuel ran out.
  unfoldable pub resize : (fuel : ℕ) → Direction → ℕ → ℕ → Dict ℕ → Option (Dict ℕ × ℕ)
  unfolding change_cols spread
  resize zero dir round delta sizes = none
  resize (suc fuel) dir round zero sizes = some (sizes, zero)
  resize (suc fuel) dir round (suc d) sizes = elim (change_cols dir round sizes) [
    | [] ↦ some (sizes, suc d)
    | k ∷ ks ↦
        let (sizes', left) = spread dir (k ∷ ks) (suc d) sizes in
        resize fuel dir (round + 1) left sizes'
  ]

  unfoldable pub resize_by : ℤ → Dict ℕ → Option (Dict ℕ × ℕ)
  unfolding resize
  resize_by (pos delta) sizes = resize (delta + 1) grow 0 delta sizes
  resize_by (negsuc d) sizes = resize (d + 2) shrink 0 (suc d) sizes

-- The widths that the values ask for.
unfoldable pub data_sizes : WrapperTable → Dict ℕ
unfolding note_cell note_row data_col_max_size wanted wanted_sizes
data_sizes t = wanted_sizes t.fields_size (data_col_max_size t.fields t.rows []) []

-- What is left for the columns beside the padding and the borders.
unfoldable pub inner_size : WrapperTable → ℤ
inner_size t = pos t.total_size -ℤ pos (length t.fields * 2 * 1) -ℤ pos ((length t.fields + 1) * 1)

-- `t.totalSize` and `t.fieldsSize`, with what is left of `delta`.
unfoldable pub calculate_columns_size : (ℕ → List Str) → WrapperTable → Option (ℤ × Dict ℕ × ℕ)
unfolding data_sizes inner_size sum_sizes resize_by
calculate_columns_size visit t =
    let sizes = data_sizes t in
    let cal_size = sum_sizes sizes in
    if t.total_size == 0
    then some (pos cal_size, sizes, 0)
    else elim (resize_by t.fields_size visit (inner_size t -ℤ pos cal_size) sizes) [
      | none ↦ none
      | some r ↦ some (inner_size t, r.0, r.1)
    ]

module _ (valid : Str → Bool) where
  -- GetValidString, backwards: the longest valid prefix of at most `position` bytes.
  valid_prefix : ℕ → Str → Str
  valid_prefix zero s = []
  valid_prefix (suc p) s =
      let rest = valid_prefix p s in if valid (take (suc p) s) then take (suc p) s else rest

  -- Forwards: the longest valid suffix.
  valid_suffix : Str → Str
  valid_suffix [] = []
  valid_suffix (c ∷ s) = let rest = valid_suffix s in if valid (c ∷ s) then c ∷ s else rest

  unfoldable pub get_valid_string : Str → ℤ → Bool → Str
  unfolding valid_prefix valid_suffix
  get_valid_string s (negsuc n) positive = []
  get_valid_string s (pos p) positive =
      if leb p (length s)
      then (if positive then valid_prefix p s else valid_suffix (drop p s))
      else []

  -- A value that does not fit its column of `size` bytes.
  unfoldable pub truncate : TruncPolicy → Str → ℕ → Str
  unfolding get_valid_string
  truncate trunc_suffix s size = get_valid_string s (pos size -ℤ pos 3) true ++ codes "..."
  truncate trunc_prefix s size =
      codes "..." ++ get_valid_string s (pos (length s) -ℤ pos size -ℤ pos 3) false
  truncate trunc_middle s size =
      let mid = half (pos size -ℤ pos 3) in
      get_valid_string s mid true
      ++ (codes "..." ++ get_valid_string s (pos (length s) -ℤ mid) false)

  unfoldable pub cell : TruncPolicy → Str → ℕ → Str
  unfolding truncate
  cell policy s size = if leb (length s) size then s else truncate policy s size

  unfoldable pub convert_data_to_slice : WrapperTable → Dict ℕ → List (List Str)
  unfolding cell
  convert_data_to_slice t sizes =
      map
        (λ row. map (λ col. cell t.trunc_policy (get_or row col []) (get_or sizes col 0)) t.fields)
        t.rows
