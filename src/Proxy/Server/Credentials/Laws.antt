-- ===== src/Proxy/Server/Credentials/Laws.antt =====
-- checkRequiredAuth of pkg/proxy/server.go against what it needs.
use gojump.Prelude.{
  if◌then◌else◌, ℕ, Str, List, [], true, Option, none, some, codes, str_eq, eq_iff, ◌≡◌, ◌↔◌, ◌⊎◌,
  inl, inr, refl, sym, ◌∙◌, subst, arith, Bool-cases, Option-cases,
}
use mathlib.Core.Option.{some-injective}
use gojump.Core.{Config}
use gojump.Proxy.Server.{
  Server, protocol_ssh, with_system_user, get_username_if_need, get_auth_password_if_need,
  check_reuse_ssh_client, get_cache_ssh_conn, ask_password, check_required_auth,
}
use gojump.Proxy.Server.Credentials.{
  IsNamed, own, typed, secret, private_key, with_secret, IsShared, cached, IsAlone, IsProven,
  shared, by_key, by_secret, asked, HasCredentials,
}
use gojump.Proxy.Server.Credentials.Named.{name-IsNamed, IsNamed-name}

module _ (cfg : Config) (cache : Str → Option ℕ) where
  ask-IsProven :
      (s s1 : Server) (password : Option Str)
      → IsAlone cfg cache s
      → ask_password cfg cache s password ≡ some s1
      → IsProven cfg cache s password s1
  unfolding ask_password get_auth_password_if_need with_system_user
  ask-IsProven s s1 password alone h = elim (Bool-cases (str_eq (private_key s) [])) [
    | inr k ↦
        let same : s ≡ s1 = ground (arith, h, k) in
        subst (IsProven cfg cache s password) same
          (by_key alone (ground (arith, k, eq_iff (private_key s) [])))
    | inl k ↦ elim (Bool-cases (str_eq (secret s) [])) [
      | inr b ↦
          let same : s ≡ s1 = ground (arith, h, k, b) in
          subst (IsProven cfg cache s password) same (
            by_secret alone ((eq_iff (private_key s) []).0 k)
              (ground (arith, b, eq_iff (secret s) [])))
      | inl b ↦ elim (Option-cases password) [
        | inl p ↦ absurd (ground (arith, h, k, b, p))
        | inr (line, p) ↦
            let same : with_secret s line ≡ s1 = ground (arith, h, k, b, p) in
            subst (IsProven cfg cache s password) same
              (asked line alone ((eq_iff (private_key s) []).0 k) ((eq_iff (secret s) []).0 b) p)
      ]
    ]
  ]

  abbrev prove : Server → Option Str → Option Server
  prove s password =
      if check_reuse_ssh_client cfg s
      then elim (get_cache_ssh_conn cfg cache s) [
        | some conn ↦ some (record s { cache_ssh_connection = some conn })
        | none ↦ ask_password cfg cache s password
      ]
      else ask_password cfg cache s password

  Alone-cases :
      (s : Server)
      → s.conn_opts.system_user.protocol ≡ protocol_ssh
      → ((conn : ℕ) × IsShared cfg cache s × (cached cfg cache s ≡ some conn)) ⊎ IsAlone cfg cache s
  Alone-cases s ssh = elim (Bool-cases cfg.reuse_connection) [
    | inr r ↦ inr (inl r)
    | inl r ↦ elim (Bool-cases (str_eq s.conn_opts.asset.platform (codes "Linux"))) [
      | inr l ↦ inr (
          inr (
            inl (λ q.
              absurd (ground (arith, l, q, eq_iff s.conn_opts.asset.platform (codes "Linux"))))))
      | inl l ↦ elim (Option-cases (cached cfg cache s)) [
        | inl c ↦ inr (inr (inr c))
        | inr (conn, c) ↦
            inl (conn, (r, (eq_iff s.conn_opts.asset.platform (codes "Linux")).0 l), c)
      ]
    ]
  ]

  prove-alone :
      (s : Server) (password : Option Str)
      → s.conn_opts.system_user.protocol ≡ protocol_ssh
      → IsAlone cfg cache s
      → prove s password ≡ ask_password cfg cache s password
  unfolding check_reuse_ssh_client get_cache_ssh_conn
  prove-alone s password ssh (inl r) = ground (arith, r)
  prove-alone s password ssh (inr (inl l)) =
      elim (Bool-cases (str_eq s.conn_opts.asset.platform (codes "Linux"))) [
        | inl b ↦ absurd (l ((eq_iff s.conn_opts.asset.platform (codes "Linux")).0 b))
        | inr b ↦ ground (arith, b)
      ]
  prove-alone s password ssh (inr (inr c)) = ground (arith, c)

  prove-shared :
      (s : Server) (password : Option Str) (conn : ℕ)
      → s.conn_opts.system_user.protocol ≡ protocol_ssh
      → IsShared cfg cache s
      → cached cfg cache s ≡ some conn
      → prove s password ≡ some (record s { cache_ssh_connection = some conn })
  unfolding check_reuse_ssh_client get_cache_ssh_conn
  prove-shared s password conn ssh (r, l) c =
      let linux : str_eq s.conn_opts.asset.platform (codes "Linux") ≡ true =
        (eq_iff s.conn_opts.asset.platform (codes "Linux")).1 l in
      let same : str_eq s.conn_opts.system_user.protocol protocol_ssh ≡ true =
        (eq_iff s.conn_opts.system_user.protocol protocol_ssh).1 ssh in
      ground (arith, r, linux, same, c)

  prove-IsProven :
      (s s1 : Server) (password : Option Str)
      → s.conn_opts.system_user.protocol ≡ protocol_ssh
      → prove s password ≡ some s1
      → IsProven cfg cache s password s1
  prove-IsProven s s1 password ssh h = elim (Alone-cases s ssh) [
    | inr alone ↦ ask-IsProven s s1 password alone (sym (prove-alone s password ssh alone) ∙ h)
    | inl (conn, both, c) ↦
        let same : record s { cache_ssh_connection = some conn } ≡ s1 =
          some-injective _ s1 (sym (prove-shared s password conn ssh both c) ∙ h) in
        subst (IsProven cfg cache s password) same (shared conn both c)
  ]

  IsProven-prove :
      (s s1 : Server) (password : Option Str)
      → s.conn_opts.system_user.protocol ≡ protocol_ssh
      → IsProven cfg cache s password s1
      → prove s password ≡ some s1
  unfolding ask_password get_auth_password_if_need with_system_user
  IsProven-prove s s1 password ssh (shared conn both c) = prove-shared s password conn ssh both c
  IsProven-prove s s1 password ssh (by_key alone k) =
      prove-alone s password ssh alone ∙ ground (arith, k, eq_iff (private_key s) [])
  IsProven-prove s s1 password ssh (by_secret alone k b) =
      prove-alone s password ssh alone
      ∙ ground (arith, k, b, eq_iff (private_key s) [], eq_iff (secret s) [])
  IsProven-prove s s1 password ssh (asked line alone k b p) =
      prove-alone s password ssh alone
      ∙ ground (arith, k, b, p, eq_iff (private_key s) [], eq_iff (secret s) [])

  IsNamed-protocol :
      (s s0 : Server) (lines : List Str)
      → IsNamed s lines s0
      → s0.conn_opts.system_user.protocol ≡ s.conn_opts.system_user.protocol
  IsNamed-protocol s s0 lines (own n) = refl
  IsNamed-protocol s s0 lines (typed name q f) = refl

  auth-HasCredentials :
      (s s1 : Server) (lines : List Str) (password : Option Str)
      → check_required_auth cfg cache s lines password ≡ some s1
      → HasCredentials cfg cache s lines password s1
  unfolding check_required_auth
  auth-HasCredentials s s1 lines password h =
      elim (Bool-cases (str_eq s.conn_opts.system_user.protocol protocol_ssh)) [
        | inr b ↦ absurd (ground (arith, h, b))
        | inl b ↦ elim (Option-cases (get_username_if_need s lines)) [
          | inl n ↦ absurd (ground (arith, h, b, n))
          | inr (s0, n) ↦
              let ssh = (eq_iff s.conn_opts.system_user.protocol protocol_ssh).0 b in
              let name = name-IsNamed s s0 lines n in
              let found : prove s0 password ≡ some s1 = ground (arith, h, b, n) in
              record {
                ssh = ssh;
                s0 = s0;
                name = name;
                proof =
                    prove-IsProven s0 s1 password (IsNamed-protocol s s0 lines name ∙ ssh) found;
              }
        ]
      ]

  HasCredentials-auth :
      (s s1 : Server) (lines : List Str) (password : Option Str)
      → HasCredentials cfg cache s lines password s1
      → check_required_auth cfg cache s lines password ≡ some s1
  unfolding check_required_auth
  HasCredentials-auth s s1 lines password c =
      let b = (eq_iff s.conn_opts.system_user.protocol protocol_ssh).1 c.ssh in
      let n = IsNamed-name s c.s0 lines c.name in
      let found =
        IsProven-prove c.s0 s1 password (IsNamed-protocol s c.s0 lines c.name ∙ c.ssh) c.proof in
      ground (arith, b, n, found)

  pub auth_iff :
      (s s1 : Server) (lines : List Str) (password : Option Str)
      → (check_required_auth cfg cache s lines password ≡ some s1)
        ↔ HasCredentials cfg cache s lines password s1
  auth_iff s s1 lines password =
      (auth-HasCredentials s s1 lines password, HasCredentials-auth s s1 lines password)

  IsProven-protocol :
      (s s1 : Server) (password : Option Str)
      → IsProven cfg cache s password s1
      → s1.conn_opts.system_user.protocol ≡ s.conn_opts.system_user.protocol
  IsProven-protocol s s1 password (shared conn both c) = refl
  IsProven-protocol s s1 password (by_key alone k) = refl
  IsProven-protocol s s1 password (by_secret alone k b) = refl
  IsProven-protocol s s1 password (asked line alone k b p) = refl

  pub HasCredentials-protocol :
      (s s1 : Server) (lines : List Str) (password : Option Str)
      → HasCredentials cfg cache s lines password s1
      → s1.conn_opts.system_user.protocol ≡ protocol_ssh
  HasCredentials-protocol s s1 lines password c =
      IsProven-protocol c.s0 s1 password c.proof ∙ IsNamed-protocol s c.s0 lines c.name ∙ c.ssh
