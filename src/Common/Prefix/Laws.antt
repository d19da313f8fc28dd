-- ===== src/Common/Prefix/Laws.antt =====
-- The binary search beside a description of its result.
use gojump.Prelude.{
  ℕ, zero, suc, ◌+◌, ◌-◌, ◌/◌, ◌≤◌, ◌<◌, Str, List, [], ◌∷◌, true, if◌then◌else◌, ltb, leb, eq_iff,
  length, take, length-take, All, ◌≡◌, ◌≢◌, refl, sym, ap, ◌∙◌, arith, Bool-cases, inl, inr,
}
use gojump.Common.Prefix.{
  is_common_prefix, min_length, bisect, longest_common_prefix, filter_prefix, longest_from,
  longest_str,
}

-- The text begins with `p`.
abbrev pub Begins : Str → Str → Type 0
Begins p s = take (length p) s ≡ p

-- All texts agree on their first `n` bytes.
abbrev Agree : Str → List Str → ℕ → Type 0
Agree str0 others n = All (λ s. take n s ≡ take n str0) others

common→Agree :
    (str0 : Str) (others : List Str) (n : ℕ)
    → is_common_prefix str0 others n ≡ true
    → Agree str0 others n
unfolding is_common_prefix
common→Agree str0 [] n h = tt
common→Agree str0 (s ∷ ss) n h =
    (ground (arith, eq_iff (take n s) (take n str0)), common→Agree str0 ss n (ground arith))

Agree→common :
    (str0 : Str) (others : List Str) (n : ℕ)
    → Agree str0 others n
    → is_common_prefix str0 others n ≡ true
unfolding is_common_prefix
Agree→common str0 [] n h = refl
Agree→common str0 (s ∷ ss) n h =
    ground (arith, eq_iff (take n s) (take n str0), Agree→common str0 ss n h.1)

take-take {ℓ} : {A : Type ℓ} (n m : ℕ) (xs : List A) → n ≤ m → take n (take m xs) ≡ take n xs
take-take zero m xs h = refl
take-take (suc n) zero xs h = absurd (omega arith)
take-take (suc n) (suc m) [] h = refl
take-take (suc n) (suc m) (x ∷ xs) h = ap (◌∷◌ x) (take-take n m xs (omega arith))

Agree-mono :
    (str0 : Str) (others : List Str) (n m : ℕ) → n ≤ m → Agree str0 others m → Agree str0 others n
Agree-mono str0 [] n m le h = tt
Agree-mono str0 (s ∷ ss) n m le h = (
  sym (take-take n m s le) ∙ ap (take n) h.0 ∙ take-take n m str0 le,
  Agree-mono str0 ss n m le h.1,
)

Agree-zero : (str0 : Str) (others : List Str) → Agree str0 others 0
Agree-zero str0 [] = tt
Agree-zero str0 (s ∷ ss) = (refl, Agree-zero str0 ss)

-- The search keeps: all agree up to `low`, and nothing above `high` and up to `m` is agreed on.
bisect_lem :
    (fuel : ℕ) (str0 : Str) (others : List Str) (low high m : ℕ)
    → high - low ≤ fuel
    → low ≤ high
    → high ≤ m
    → Agree str0 others low
    → ((k : ℕ) → high < k → k ≤ m → ¬ (Agree str0 others k))
    → let r = bisect fuel str0 others low high in
      (r ≤ m) × Agree str0 others r × ((k : ℕ) → r < k → k ≤ m → ¬ (Agree str0 others k))
unfolding bisect
bisect_lem zero str0 others low high m f le hm a none_above =
    (omega arith, a, λ k lt km. none_above k (omega arith) km)
bisect_lem (suc fuel) str0 others low high m f le hm a none_above =
    elim (Bool-cases (ltb low high)) [
      | inr stop ↦ rw stop (omega arith, a, λ k lt km. none_above k (ground arith) km)
      | inl go ↦
          let mid = (high - low + 1) / 2 + low in
          elim (Bool-cases (is_common_prefix str0 others mid)) [
            | inl yes' ↦
                rw (go, yes')
                  (bisect_lem fuel str0 others mid high m (ground arith) (ground arith) hm
                    (common→Agree str0 others mid yes') none_above)
            | inr no' ↦
                rw (go, no')
                  (bisect_lem fuel str0 others low (mid - 1) m (ground arith) (ground arith)
                    (ground arith) a
                    (λ k lt km ag. cc (
                      no',
                      Agree→common str0 others mid (Agree-mono str0 others mid k (ground arith) ag),
                    )))
          ]
    ]

min_length_le :
    (m : ℕ) (ss : List Str) → (min_length m ss ≤ m) × All (λ s. min_length m ss ≤ length s) ss
unfolding min_length
min_length_le m [] = (omega arith, tt)
min_length_le m (s ∷ ss) =
    let rest = min_length_le (if ltb (length s) m then length s else m) ss in
    (ground (arith, rest.0), (ground (arith, rest.0), rest.1))

min_length_greatest :
    (m n : ℕ) (ss : List Str) → n ≤ m → All (λ s. n ≤ length s) ss → n ≤ min_length m ss
unfolding min_length
min_length_greatest m n [] h a = h
min_length_greatest m n (s ∷ ss) h a =
    min_length_greatest (if ltb (length s) m then length s else m) n ss (ground arith) a.1

Begins-length : (q s : Str) → Begins q s → length q ≤ length s
Begins-length q s h = omega (arith, length-take (length q) s, ap length h)

All-length : (q : Str) (ss : List Str) → All (Begins q) ss → All (λ s. length q ≤ length s) ss
All-length q [] h = tt
All-length q (s ∷ ss) h = (Begins-length q s h.0, All-length q ss h.1)

Begins-Agree :
    (q str0 : Str) (ss : List Str) → Begins q str0 → All (Begins q) ss → Agree str0 ss (length q)
Begins-Agree q str0 [] h a = tt
Begins-Agree q str0 (s ∷ ss) h a = (a.0 ∙ sym h, Begins-Agree q str0 ss h a.1)

Agree-Begins :
    (str0 : Str) (ss : List Str) (n : ℕ)
    → n ≤ length str0
    → Agree str0 ss n
    → All (Begins (take n str0)) ss
Agree-Begins str0 [] n h a = tt
Agree-Begins str0 (s ∷ ss) n h a =
    let e : length (take n str0) ≡ n = omega (arith, length-take n str0) in
    (ap (λ (k : ℕ). take k s) e ∙ a.0, Agree-Begins str0 ss n h a.1)

longest_common_prefix_lem :
    (strs : List Str) (q : Str)
    → strs ≢ []
    → All (Begins (longest_common_prefix strs)) strs
      × (All (Begins q) strs → length q ≤ length (longest_common_prefix strs))
unfolding longest_common_prefix
longest_common_prefix_lem [] q h = absurd (h refl)
longest_common_prefix_lem (str0 ∷ others) q h =
    let m = min_length (length str0) (str0 ∷ others) in
    let low = min_length_le (length str0) (str0 ∷ others) in
    let r = bisect m str0 others 0 m in
    let found =
      bisect_lem m str0 others 0 m m (omega arith) (omega arith) (omega arith)
        (Agree-zero str0 others) (λ k lt km ag. absurd (omega arith)) in
    let e : length (take r str0) ≡ r = omega (arith, length-take r str0, found.0, low.0) in
    (
      (
        ap (λ (k : ℕ). take k str0) e,
        Agree-Begins str0 others r (omega (arith, found.0, low.0)) found.1,
      ),
      λ a. elim (Bool-cases (ltb r (length q))) [
        | inl over ↦ absurd (
            found.2 (length q) (ground arith)
              (min_length_greatest (length str0) (length q) (str0 ∷ others)
                (Begins-length q str0 a.0) (All-length q (str0 ∷ others) a))
              (Begins-Agree q str0 others a.0 a.1))
        | inr within ↦ let le : length q ≤ r = ground arith in omega (arith, le, e)
      ],
    )

-- The common prefix of some texts begins every one of them, and no text that begins them all is
-- longer than it.
pub longest_common_prefix_greatest :
    (strs : List Str) (q : Str)
    → strs ≢ []
    → All (Begins q) strs
    → All (Begins (longest_common_prefix strs)) strs
      × (length q ≤ length (longest_common_prefix strs))
longest_common_prefix_greatest strs q h a =
    let lem = longest_common_prefix_lem strs q h in (lem.0, lem.1 a)

offered : (suggests : List Str) (line : Str) → All (Begins line) (filter_prefix suggests line)
unfolding filter_prefix
offered [] line = tt
offered (v ∷ vs) line = ground (arith, offered vs line, eq_iff (take (length line) v) line)

longest_from-le :
    (longest : Str) (ss : List Str)
    → (length longest ≤ length (longest_from longest ss))
      × All (λ s. length s ≤ length (longest_from longest ss)) ss
unfolding longest_from
longest_from-le longest [] = (omega arith, tt)
longest_from-le longest (s ∷ ss) =
    let rest = longest_from-le (if leb (length longest) (length s) then s else longest) ss in
    (ground (arith, rest.0), (ground (arith, rest.0), rest.1))

-- No text is longer than the one that sets the width of the columns.
pub longest_str-le : (strs : List Str) → All (λ s. length s ≤ length (longest_str strs)) strs
unfolding longest_str
longest_str-le strs = (longest_from-le [] strs).1

-- What the completion of the client's line does with the suggestions, where any is offered: every
-- text that is offered begins with the line, and their common prefix, which replaces the line,
-- begins each of them and is at least as long as what was typed.
pub longest_common_prefix-filter_prefix :
    (suggests : List Str) (line : Str)
    → filter_prefix suggests line ≢ []
    → All (Begins line) (filter_prefix suggests line)
      × (length line ≤ length (longest_common_prefix (filter_prefix suggests line)))
      × All
          (Begins (longest_common_prefix (filter_prefix suggests line)))
          (filter_prefix suggests line)
longest_common_prefix-filter_prefix suggests line h =
    let all_begin = offered suggests line in
    let lem = longest_common_prefix_lem (filter_prefix suggests line) line h in
    (all_begin, lem.1 all_begin, lem.0)
