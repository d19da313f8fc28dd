-- ===== src/Handler/Login/Choice.antt =====
-- The choice of a system user, chooseSystemUser of pkg/handler/interactive.go.
use gojump.Prelude.{
  zero, suc, Str, List, [], ◌∷◌, Option, none, some, In, head, ◌≡◌, sym, subst, arith,
}
use gojump.Prelude.Int.{ℤ, pos, negsuc}
use gojump.Prelude.Atoi.{atoi, trim_space, numbered}
use gojump.Model.{SystemUser}
use gojump.Handler.Select.Local.{In-get_elem?}
use gojump.Handler.Login.{choose_from, choose_system_user}

numbered-In : {A : Type 0} (n : Option ℤ) (l : List A) (a : A) → numbered n l ≡ some a → In a l
unfolding numbered
numbered-In none l a h = cc
numbered-In (some (negsuc n)) l a h = cc
numbered-In (some (pos zero)) l a h = cc
numbered-In (some (pos (suc n))) l a h = In-get_elem? l n a h

choose_from-In :
    (users : List SystemUser) (lines : List Str) (u : SystemUser)
    → choose_from users lines ≡ some u
    → In u users
unfolding choose_from
choose_from-In users [] u h = cc
choose_from-In users (raw ∷ lines) u h =
    let line = trim_space raw in
    ground (arith, numbered-In (atoi line) users u, choose_from-In users lines u)

-- The system user that is chosen is one of those that were offered.
pub choose_system_user-In :
    (users : List SystemUser) (lines : List Str) (u : SystemUser)
    → choose_system_user users lines ≡ some u
    → In u users
unfolding choose_system_user
choose_system_user-In [] lines u h = cc
choose_system_user-In (x ∷ []) lines u h =
    let same : u ≡ x = ground arith in subst (λ y. In y (x ∷ [])) (sym same) head
choose_system_user-In (x ∷ y ∷ ys) lines u h = choose_from-In (x ∷ y ∷ ys) lines u h
