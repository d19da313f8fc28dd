-- ===== src/Common/Table/Cells.antt =====
-- GetValidString and the cells of convertDataToSlice, pkg/common/table.go: their widths.
use gojump.Prelude.{
  ℕ, zero, suc, ◌+◌, ◌-◌, ◌/◌, ◌≤◌, Str, [], ◌∷◌, ◌++◌, Bool, true, false, ◌≡◌, ◌≢◌, refl, inl, inr,
  codes, length, take, drop, Bool-cases, arith, length-append, length-take, length-drop,
}
use gojump.Prelude.Int.{pos, ◌-ℤ◌}
use gojump.Common.Table.{
  TruncPolicy, trunc_suffix, trunc_prefix, trunc_middle, get_valid_string, valid_prefix,
  valid_suffix, truncate, cell,
}

minus_pos : (a b : ℕ) → b ≤ a → pos a -ℤ pos b ≡ pos (a - b)
minus_pos a b h = ground arith

-- Every suffix of a text that is valid throughout.
valid_suffix_all : (s : Str) → valid_suffix (λ _. true) s ≡ s
unfolding valid_suffix
valid_suffix_all [] = refl
valid_suffix_all (c ∷ s) = refl

module _ (valid : Str → Bool) where
  length-valid_prefix : (p : ℕ) (s : Str) → length (valid_prefix valid p s) ≤ p
  unfolding valid_prefix
  length-valid_prefix zero s = omega arith
  length-valid_prefix (suc p) s = ground (arith, length-valid_prefix p s, length-take (suc p) s)

  length-valid_suffix : (s : Str) → length (valid_suffix valid s) ≤ length s
  unfolding valid_suffix
  length-valid_suffix [] = omega arith
  length-valid_suffix (c ∷ s) = ground (arith, length-valid_suffix s)

  -- Backwards no more bytes than asked for, forwards no more than are left.
  pub length-get_valid_string_prefix :
      (s : Str) (p : ℕ) → length (get_valid_string valid s (pos p) true) ≤ p
  unfolding get_valid_string
  length-get_valid_string_prefix s p = ground (arith, length-valid_prefix p s)

  pub length-get_valid_string_suffix :
      (s : Str) (p : ℕ) → length (get_valid_string valid s (pos p) false) ≤ length s - p
  unfolding get_valid_string
  length-get_valid_string_suffix s p =
      ground (arith, length-valid_suffix (drop p s), length-drop p s)

  prefix_longest :
      (p : ℕ) (s : Str) (n : ℕ)
      → n ≤ p
      → p ≤ length s
      → valid (take n s) ≡ true
      → n ≤ length (valid_prefix valid p s)
  unfolding valid_prefix
  prefix_longest zero s n le fits ok = omega arith
  prefix_longest (suc p) s n le fits ok = elim (Bool-cases (valid (take (suc p) s))) [
    | inl e ↦ rw e (omega (arith, length-take (suc p) s))
    | inr e ↦ rw e (prefix_longest p s n (ground arith) (omega arith) ok)
  ]

  prefix_of : (p : ℕ) (s : Str) → (n : ℕ) × (valid_prefix valid p s ≡ take n s)
  unfolding valid_prefix
  prefix_of zero s = (0, refl)
  prefix_of (suc p) s = elim (Bool-cases (valid (take (suc p) s))) [
    | inl e ↦ (suc p, rw e refl)
    | inr e ↦ rw e (prefix_of p s)
  ]

  -- GetValidString backwards gives the longest of the valid prefixes within the position.
  pub get_valid_string_prefix_longest :
      (s : Str) (p n : ℕ)
      → p ≤ length s
      → n ≤ p
      → valid (take n s) ≡ true
      → n ≤ length (get_valid_string valid s (pos p) true)
  unfolding get_valid_string
  get_valid_string_prefix_longest s p n fits le ok = ground (arith, prefix_longest p s n le fits ok)

  length-truncate_suffix :
      (s : Str) (size : ℕ) → 3 ≤ size → length (truncate valid trunc_suffix s size) ≤ size
  unfolding truncate
  length-truncate_suffix s size h = rw (minus_pos size 3 h) (
      omega (
        arith,
        length-append (get_valid_string valid s (pos (size - 3)) true) (codes "..."),
        length-get_valid_string_prefix s (size - 3),
      ))

  length-truncate_middle :
      (s : Str) (size : ℕ)
      → 3 ≤ size
      → size ≤ length s
      → length (truncate valid trunc_middle s size) ≤ size
  unfolding truncate
  length-truncate_middle s size h fits =
      let mid = (size - 3) / 2 in
      let mid_le : mid ≤ length s = omega arith in
      rw (minus_pos size 3 h, minus_pos (length s) mid mid_le)
        (omega (
          arith,
          length-append (get_valid_string valid s (pos mid) true)
              (codes "..." ++ get_valid_string valid s (pos (length s - mid)) false),
          length-get_valid_string_prefix s mid,
          length-get_valid_string_suffix s (length s - mid),
        ))

  -- A cell is no wider than its column, of three bytes at least, unless the policy is to keep the
  -- end of a value.
  pub cell_fits :
      (policy : TruncPolicy) (s : Str) (size : ℕ)
      → policy ≢ trunc_prefix
      → 3 ≤ size
      → length (cell valid policy s size) ≤ size
  unfolding cell
  cell_fits trunc_suffix s size no_prefix h = ground (arith, length-truncate_suffix s size h)
  cell_fits trunc_middle s size no_prefix h = ground (arith, length-truncate_middle s size h)
  cell_fits trunc_prefix s size no_prefix h = absurd (no_prefix refl)

-- When every text is valid, as in ASCII, keeping the end of a value that is at least three bytes
-- longer than its column gives a cell of six bytes more than the column: the position is
-- `len - size - 3` where `len - size + 3` is meant.
pub trunc_prefix_overflows :
    (s : Str) (size : ℕ)
    → size + 3 ≤ length s
    → length (cell (λ _. true) trunc_prefix s size) ≡ size + 6
unfolding cell truncate get_valid_string
trunc_prefix_overflows s size h = ground (
  arith,
  minus_pos (length s) size,
  minus_pos (length s - size) 3,
  length-drop (length s - size - 3) s,
  valid_suffix_all (drop (length s - size - 3) s),
)
