-- ===== src/Proxy/Connect/Keyboard.antt =====
-- The answers that getSSHConn of pkg/proxy/server.go gives to the questions of an asset.
use gojump.Prelude.{
  ℕ, zero, suc, Str, List, [], ◌∷◌, Bool, not, ◌&&◌, ◌||◌, if◌then◌else◌, codes, str_eq, contains,
  keep, length, ◌≡◌, refl, arith, Bool-cases, inl, inr,
}
use gojump.Model.Protocol.{to_lower}
use gojump.Proxy.Connect.{answer_questions}

-- The question is for a password, and the system user has a password or a key.
abbrev pub is_stored : (password private_key q : Str) → Bool
is_stored password private_key q =
    contains (to_lower q) (codes "password")
    && (not (str_eq private_key []) || not (str_eq password []))

-- The answers to the other questions.
abbrev pub typed : (password private_key : Str) → List Str → List Str → List Str
typed password private_key [] answers = []
typed password private_key (q ∷ qs) [] = []
typed password private_key (q ∷ qs) (a ∷ answers) =
    let rest = typed password private_key qs answers in
    if is_stored password private_key q then rest else a ∷ rest

-- The first lines, with empty ones where there are too few.
abbrev pub first_lines : ℕ → List Str → List Str
first_lines zero lines = []
first_lines (suc n) [] = [] ∷ first_lines n []
first_lines (suc n) (line ∷ lines) = line ∷ first_lines n lines

-- The questions that the stored password answers have no other answer.
abbrev pub IsSpared : (password private_key : Str) → List Str → List Str → Type 0
IsSpared password private_key [] answers = Unit
IsSpared password private_key (q ∷ qs) [] = Unit
IsSpared password private_key (q ∷ qs) (a ∷ answers) =
    (if is_stored password private_key q then a else password) ≡ password
    × IsSpared password private_key qs answers

module _ (password private_key : Str) where
  abbrev by_hand : List Str → ℕ
  by_hand qs = length (keep (λ q. not (is_stored password private_key q)) qs)

  length-answer :
      (qs lines : List Str) → length (answer_questions password private_key qs lines) ≡ length qs
  unfolding answer_questions
  length-answer [] lines = refl
  length-answer (q ∷ qs) [] = ground (arith, length-answer qs [])
  length-answer (q ∷ qs) (line ∷ lines) =
      ground (arith, length-answer qs (line ∷ lines), length-answer qs lines)

  typed-answer :
      (qs lines : List Str)
      → typed password private_key qs (answer_questions password private_key qs lines)
        ≡ first_lines (by_hand qs) lines
  unfolding answer_questions
  typed-answer [] lines = refl
  typed-answer (q ∷ qs) [] = elim (Bool-cases (is_stored password private_key q)) [
    | inl b ↦ ground (arith, b, typed-answer qs [])
    | inr b ↦ ground (arith, b, typed-answer qs [])
  ]
  typed-answer (q ∷ qs) (line ∷ lines) = elim (Bool-cases (is_stored password private_key q)) [
    | inl b ↦ ground (arith, b, typed-answer qs (line ∷ lines))
    | inr b ↦ ground (arith, b, typed-answer qs lines)
  ]

  answer-IsSpared :
      (qs lines : List Str)
      → IsSpared password private_key qs (answer_questions password private_key qs lines)
  unfolding answer_questions
  answer-IsSpared [] lines = tt
  answer-IsSpared (q ∷ qs) [] = ground (arith, answer-IsSpared qs [])
  answer-IsSpared (q ∷ qs) (line ∷ lines) =
      ground (arith, answer-IsSpared qs (line ∷ lines), answer-IsSpared qs lines)

  -- Every question gets one answer. A question for a password is answered with the stored password
  -- when the system user has a password or a key, and the other questions take the typed lines, in
  -- order and without a gap.
  pub answers_split :
      (qs lines : List Str)
      → (length (answer_questions password private_key qs lines) ≡ length qs)
        × IsSpared password private_key qs (answer_questions password private_key qs lines)
        × (typed password private_key qs (answer_questions password private_key qs lines)
            ≡ first_lines (by_hand qs) lines)
  answers_split qs lines = (length-answer qs lines, answer-IsSpared qs lines, typed-answer qs lines)
