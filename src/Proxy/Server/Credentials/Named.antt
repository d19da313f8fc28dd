-- ===== src/Proxy/Server/Credentials/Named.antt =====
-- The name of a login, as getUsernameIfNeed of pkg/proxy/server.go has it.
use gojump.Prelude.{
  Str, List, [], ◌∷◌, some, str_eq, eq_iff, ◌≡◌, inl, inr, subst, arith, Bool-cases, Option-cases,
}
use gojump.Prelude.Atoi.{trim_space}
use gojump.Proxy.Server.{Server, read_username, with_system_user, get_username_if_need}
use gojump.Proxy.Server.Credentials.{FirstLine, here, blank, login_name, named, IsNamed, own, typed}

read_username-FirstLine :
    (lines : List Str) (name : Str) → read_username lines ≡ some name → FirstLine name lines
unfolding read_username
read_username-FirstLine [] name h = cc
read_username-FirstLine (line ∷ lines) name h = elim (Bool-cases (str_eq (trim_space line) [])) [
  | inl b ↦
      blank line lines ((eq_iff (trim_space line) []).0 b)
        (read_username-FirstLine lines name (ground (arith, h, b)))
  | inr b ↦
      here line lines (ground (arith, h, b)) (ground (arith, h, b, eq_iff (trim_space line) []))
]

FirstLine-read_username :
    (lines : List Str) (name : Str) → FirstLine name lines → read_username lines ≡ some name
unfolding read_username
FirstLine-read_username [] name f = elim f [ ]
FirstLine-read_username (line ∷ lines) name (here _ _ q n) =
    ground (arith, q, n, eq_iff (trim_space line) [])
FirstLine-read_username (line ∷ lines) name (blank _ _ q f) =
    ground (arith, q, eq_iff (trim_space line) [], FirstLine-read_username lines name f)

pub name-IsNamed :
    (s s1 : Server) (lines : List Str) → get_username_if_need s lines ≡ some s1 → IsNamed s lines s1
unfolding get_username_if_need with_system_user
name-IsNamed s s1 lines h = elim (Bool-cases (str_eq (login_name s) [])) [
  | inr b ↦
      let same : s ≡ s1 = ground (arith, h, b) in
      subst (IsNamed s lines) same (own (ground (arith, b, eq_iff (login_name s) [])))
  | inl b ↦ elim (Option-cases (read_username lines)) [
    | inl r ↦ absurd (ground (arith, h, b, r))
    | inr (name, r) ↦
        let same : named s name ≡ s1 = ground (arith, h, b, r) in
        subst (IsNamed s lines) same
          (typed name ((eq_iff (login_name s) []).0 b) (read_username-FirstLine lines name r))
  ]
]

pub IsNamed-name :
    (s s1 : Server) (lines : List Str) → IsNamed s lines s1 → get_username_if_need s lines ≡ some s1
unfolding get_username_if_need with_system_user
IsNamed-name s s1 lines (own n) = ground (arith, n, eq_iff (login_name s) [])
IsNamed-name s s1 lines (typed name q f) =
    ground (arith, q, eq_iff (login_name s) [], FirstLine-read_username lines name f)
