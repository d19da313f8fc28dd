-- ===== src/Handler/Admin/Panic.antt =====
-- The lines on which AdminSystem, pkg/handler/admin.go, reads `words[1]` out of range.
use gojump.Prelude.{
  ℕ, Str, List, [], ◌∷◌, Option, codes, str_eq, eq_iff, split, ◌≡◌, ◌⊎◌, ◌↔◌, refl, inl, inr, In,
  head, tail, arith, split_once, subst,
}
use gojump.Prelude.Int.{ℤ}
use gojump.Store.{Engine}
use gojump.Core.{Core}
use gojump.Handler.Admin.{
  AdminLine, panicked, with_argument, first_word, decided, handed_out, command, admin_line,
}

-- The commands that take an argument.
abbrev pub commands : List Str
commands = codes "list" ∷ codes "approve" ∷ codes "reject" ∷ codes "otp" ∷ []

any_of_four :
    (w : Str)
    → (w ≡ codes "list") ⊎ ((w ≡ codes "approve") ⊎ ((w ≡ codes "reject") ⊎ (w ≡ codes "otp")))
    → In w commands
any_of_four w (inl h) = rw h head
any_of_four w (inr (inl h)) = rw h (tail head)
any_of_four w (inr (inr (inl h))) = rw h (tail (tail head))
any_of_four w (inr (inr (inr h))) = rw h (tail (tail (tail head)))

module _ (e : Engine) (username : Str) (rune_count : Str → ℕ) (format_time : ℤ → Str)
    (config_text : Option Str) where
  -- The words of a panic.
  command_panics :
      (c : Core e.Db) (words : List Str) (l : AdminLine)
      → command e username rune_count format_time config_text c words l ≡ panicked
      → (w : Str) × (words ≡ w ∷ []) × In w commands
  unfolding command with_argument first_word decided handed_out str_eq
  command_panics c [] l h = absurd (ground arith)
  command_panics c (w ∷ []) l h = (
    w,
    refl,
    any_of_four w (
        ground (
          arith,
          eq_iff w (codes "list"),
          eq_iff w (codes "approve"),
          eq_iff w (codes "reject"),
          eq_iff w (codes "otp"),
        )),
  )
  command_panics c (w ∷ v ∷ ws) l h = absurd (ground arith)

  -- A line, with the blanks around it gone, crashes the connection exactly when it is the bare name
  -- of a command that takes an argument.
  pub line_panics_iff :
      (c : Core e.Db) (line : Str) (l : AdminLine)
      → (admin_line e username rune_count format_time config_text c line l ≡ panicked)
        ↔ In line commands
  unfolding admin_line command with_argument first_word str_eq split
  line_panics_iff c line l = (forth line, back line)
    where
      whole :
          (line : Str) → (w : Str) × (split line b' ' ≡ w ∷ []) × In w commands → In line commands
      whole line (w, only, i) = subst (λ x. In x commands) (split_once line w b' ' only) i

      forth :
          (line : Str)
          → admin_line e username rune_count format_time config_text c line l ≡ panicked
          → In line commands
      forth [] h = absurd (ground arith)
      forth (ch ∷ rest) h =
          whole (ch ∷ rest) (command_panics c (split (ch ∷ rest) b' ') l (ground arith))

      back :
          (line : Str)
          → In line commands
          → admin_line e username rune_count format_time config_text c line l ≡ panicked
      back _ head = refl
      back _ (tail head) = refl
      back _ (tail (tail head)) = refl
      back _ (tail (tail (tail head))) = refl
      back _ (tail (tail (tail (tail i)))) = elim i [ ]
