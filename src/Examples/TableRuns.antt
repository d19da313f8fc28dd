-- ===== src/Examples/TableRuns.antt =====
-- A table of one column on a terminal, and cells that are too long for their columns.
use gojump.Prelude.{
  ℕ, Str, List, [], ◌∷◌, true, none, some, codes, str_eq, length, ◌≡◌, ◌≢◌, ◌≤◌, ◌+◌, refl, arith,
}
use gojump.Prelude.Int.{pos, ◌-ℤ◌}
use gojump.Prelude.Dict.{Dict, lookup, insert}
use gojump.Common.Table.{
  WrapperTable, trunc_middle, trunc_prefix, can_change, cell, calculate_columns_size, data_sizes,
  inner_size, sum_sizes,
}
use gojump.Common.Table.Layout.{IsRange, IsLaidOut, columns-IsLaidOut}
use gojump.Common.Table.Cells.{cell_fits, trunc_prefix_overflows}

abbrev hosts : WrapperTable
hosts = record {
  labels = none;
  fields = codes "Hostname" ∷ [];
  fields_size = (codes "Hostname", record { size = 0; minimum = 8; maximum = 0 }) ∷ [];
  rows = ((codes "Hostname", codes "web") ∷ []) ∷ [];
  total_size = 20;
  trunc_policy = trunc_middle;
}

abbrev visits : ℕ → List Str
visits round = codes "Hostname" ∷ []

visits-IsRange : IsRange hosts.fields_size visits
visits-IsRange = record { once = λ r. (λ i. elim i [ ], tt); every = λ r k i. i }

wide : hosts.total_size ≢ 0
wide h = absurd (omega arith)

columns_example :
    (sizes : Dict ℕ) × (left : ℕ) × (calculate_columns_size visits hosts
      ≡ some (inner_size hosts, sizes, left))
    × IsLaidOut hosts (inner_size hosts -ℤ pos (sum_sizes (data_sizes hosts))) sizes
columns_example = columns-IsLaidOut visits hosts visits-IsRange wide

-- 16 bytes are left beside the borders, and the column takes them all.
laid_out_test : calculate_columns_size visits hosts ≡ some (pos 16, (codes "Hostname", 16) ∷ [], 0)
unfolding calculate_columns_size lookup str_eq insert can_change
laid_out_test = refl

middle-ne-prefix : trunc_middle ≢ trunc_prefix
middle-ne-prefix h = cc

fits_example : length (cell (λ _. true) trunc_middle (codes "a long host name") 9) ≤ 9
fits_example =
    cell_fits (λ _. true) trunc_middle (codes "a long host name") 9 middle-ne-prefix (omega arith)

overflows_example : length (cell (λ _. true) trunc_prefix (codes "a long host name") 9) ≡ 9 + 6
overflows_example = trunc_prefix_overflows (codes "a long host name") 9 (omega arith)
