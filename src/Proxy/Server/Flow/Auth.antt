-- ===== src/Proxy/Server/Flow/Auth.antt =====
-- What checkRequiredAuth, pkg/proxy/server.go, leaves alone: only the system user and the cached
-- client may change.
use gojump.Prelude.{ℕ, Str, List, Option, some, ◌≡◌, arith, Option-cases, inl, inr}
use gojump.Core.{Config}
use gojump.Proxy.Server.{
  Server, check_required_auth, get_username_if_need, get_auth_password_if_need, get_cache_ssh_conn,
  with_system_user, ask_password,
}

pub record KeepsLogin (s s1 : Server) : Type 0 where
  pub expire_info : s1.expire_info ≡ s.expire_info
  pub user : s1.conn_opts.user ≡ s.conn_opts.user
  pub asset : s1.conn_opts.asset ≡ s.conn_opts.asset
  pub session_info : s1.session_info ≡ s.session_info
  pub id : s1.id ≡ s.id

KeepsLogin-trans : (a b c : Server) → KeepsLogin a b → KeepsLogin b c → KeepsLogin a c
KeepsLogin-trans a b c h k = ground (arith)

get_username_if_need-KeepsLogin :
    (s s1 : Server) (lines : List Str) → get_username_if_need s lines ≡ some s1 → KeepsLogin s s1
unfolding get_username_if_need with_system_user
get_username_if_need-KeepsLogin s s1 lines h = ground arith

get_auth_password_if_need-KeepsLogin :
    (s s1 : Server) (password : Option Str)
    → get_auth_password_if_need s password ≡ some s1
    → KeepsLogin s s1
unfolding get_auth_password_if_need with_system_user
get_auth_password_if_need-KeepsLogin s s1 password h = ground arith

module _ (cfg : Config) (cache : Str → Option ℕ) where
  ask_password-KeepsLogin :
      (s s1 : Server) (password : Option Str)
      → ask_password cfg cache s password ≡ some s1
      → KeepsLogin s s1
  unfolding ask_password
  ask_password-KeepsLogin s s1 password h =
      ground (arith, get_auth_password_if_need-KeepsLogin s s1 password)

  pub check_required_auth-KeepsLogin :
      (s s1 : Server) (lines : List Str) (password : Option Str)
      → check_required_auth cfg cache s lines password ≡ some s1
      → KeepsLogin s s1
  unfolding check_required_auth
  check_required_auth-KeepsLogin s s1 lines password h =
      elim (Option-cases (get_username_if_need s lines)) [
        | inl a ↦ absurd (ground arith)
        | inr (s0, a) ↦
            let kept = get_username_if_need-KeepsLogin s s0 lines a in
            elim (Option-cases (get_cache_ssh_conn cfg cache s0)) [
              | inl c ↦ ground (arith, ask_password-KeepsLogin s0 s1 password)
              | inr (conn, c) ↦ ground (arith, ask_password-KeepsLogin s0 s1 password)
            ]
      ]
