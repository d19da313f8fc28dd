-- ===== src/Server/Session/Laws.antt =====
-- Which connections reach which client.
use gojump.Prelude.{
  ℕ, Str, List, [], true, false, Option, none, some, ◌⊎◌, codes, str_eq, eq_iff, ◌≡◌, ◌≢◌, sym,
  subst, arith, inl, inr, Bool-cases, Option-cases,
}
use gojump.Prelude.Int.{ℤ}
use gojump.Prelude.Dict.{Dict}
use gojump.Model.{Node, Asset, User, SystemUser}
use gojump.Store.{Engine, Error}
use gojump.Core.{Config}
use gojump.Core.Assets.{Item}
use gojump.Srvconn.Ssh.{SshClientOptions}
use gojump.Proxy.Server.{Server}
use gojump.Proxy.Server.Flow.{Shared}
use gojump.Handler.Login.{Ended, direct_proxy}
use gojump.Handler.Session.{Entry, interactive}
use gojump.Handler.Admin.{Output, End, admin_system}
use gojump.Server.Vscode.{Clients, VscodeEnd, proxy_vscode}
use gojump.Server.Session.{
  ServerState, Connection, Report, not_auth_user, no_pty, nothing, direct, admin, table, vscode,
  session_handler, serve_user, serve_direct, serve_interactive, serve_vscode,
}

-- What a connection brings with it when a client serves it. The authenticated user has a number;
-- a terminal is a client of the name's choosing, "admin" or not; a connection without one is served
-- only where local forwarding is enabled, and then only a direct login.
pub data IsEntitled {World Db : Type 0} (cfg : Config) (c : Connection World Db)
    : Report World Db → Type 0 where
  unknown :
      (c.context_user ≡ none) ⊎ ((u : User) × (c.context_user ≡ some u) × (u.id ≡ []))
      → IsEntitled cfg c not_auth_user
  without_pty : c.is_pty ≡ false → cfg.enable_local_port_forward ≡ false → IsEntitled cfg c no_pty
  ignored :
      c.is_pty ≡ false
      → cfg.enable_local_port_forward ≡ true
      → c.direct_login ≡ none
      → IsEntitled cfg c nothing
  by_name :
      (u : User) (login : Dict Str) (end : Ended)
      → c.context_user ≡ some u
      → u.id ≢ []
      → c.is_pty ≡ true
      → c.direct_login ≡ some login
      → IsEntitled cfg c (direct end)
  as_admin :
      (u : User) (out : List Output) (end : End)
      → c.context_user ≡ some u
      → u.id ≢ []
      → u.username ≡ codes "admin"
      → c.is_pty ≡ true
      → c.direct_login ≡ none
      → IsEntitled cfg c (admin out end)
  as_user :
      (u : User) (journal : List (Entry World Db))
      → c.context_user ≡ some u
      → u.id ≢ []
      → u.username ≢ codes "admin"
      → c.is_pty ≡ true
      → c.direct_login ≡ none
      → IsEntitled cfg c (table journal)
  in_vscode :
      (u : User) (login : Dict Str) (end : VscodeEnd)
      → c.context_user ≡ some u
      → u.id ≢ []
      → c.is_pty ≡ false
      → cfg.enable_local_port_forward ≡ true
      → c.direct_login ≡ some login
      → IsEntitled cfg c (vscode end)

module _ (e : Engine) (sort_rows : List Item → List Item) (sort_nodes : List Node → List Node)
    (connect : Server → Error ⊎ ℕ) (describe : Error → Str) (during : Shared e → Shared e)
    (cfg : Config) (cache : Str → Option ℕ) (rune_count : Str → ℕ) (format_time : ℤ → Str)
    (config_text : Option Str) (dial : Asset → SystemUser → Error ⊎ (ℕ × SshClientOptions))
    (shell : Option Error) (meanwhile : Clients e.Db → Clients e.Db) where
  abbrev served :
      ServerState (Shared e) → Connection (Shared e) e.Db → User → Report (Shared e) e.Db
  served s c u =
      (serve_user e sort_rows sort_nodes connect describe during cfg cache rune_count format_time
        config_text dial shell meanwhile s c u).1

  serve_user-IsEntitled :
      (s : ServerState (Shared e)) (c : Connection (Shared e) e.Db) (u : User)
      → c.context_user ≡ some u
      → u.id ≢ []
      → IsEntitled cfg c (served s c u)
  unfolding serve_user serve_direct serve_interactive serve_vscode
  serve_user-IsEntitled s c u known named =
      let w = s.shared in
      elim (Bool-cases c.is_pty) [
        | inl p ↦ elim (Option-cases c.direct_login) [
          | inr (login, d) ↦
              let (w', end) = direct_proxy e connect describe during cfg cache w u login c.visit in
              is (direct end) (ground arith) (by_name u login end known named p d)
          | inl d ↦ elim (Bool-cases (str_eq u.username (codes "admin"))) [
            | inl a ↦
                let (core, out, end) =
                  admin_system e u.username rune_count format_time config_text w.core
                    c.admin_lines in
                is (admin out end) (ground arith)
                  (as_admin u out end known named ((eq_iff u.username (codes "admin")).0 a) p d)
            | inr a ↦
                let (w', journal) =
                  interactive e sort_rows sort_nodes connect describe during cfg cache u w
                    s.terminal_conf c.height c.visit c.lines in
                is (table journal) (ground arith) (
                  as_user u journal known named (ground (arith, eq_iff u.username (codes "admin")))
                    p d)
          ]
        ]
        | inr p ↦ elim (Bool-cases cfg.enable_local_port_forward) [
          | inr f ↦ is no_pty (ground arith) (without_pty p f)
          | inl f ↦ elim (Option-cases c.direct_login) [
            | inr (login, d) ↦
                let (k, end) =
                  proxy_vscode e dial shell meanwhile
                    (record { core = w.core; vscode_clients = s.vscode_clients }) c.ctx_id u login
                    c.events c.date c.later in
                is (vscode end) (ground arith) (in_vscode u login end known named p f d)
            | inl d ↦ is nothing (ground arith) (ignored p f d)
          ]
        ]
      ]
    where
      is :
          (r : Report (Shared e) e.Db)
          → served s c u ≡ r
          → IsEntitled cfg c r
          → IsEntitled cfg c (served s c u)
      is r q h = subst (IsEntitled cfg c) (sym q) h

  -- Each connection is served by the client that its user, its terminal and its login entitle it to:
  -- the administrator's client only to an authenticated user of the name "admin" with a terminal and
  -- no direct login, VS Code only to a direct login of an authenticated user without a terminal and
  -- where local forwarding is enabled, and none at all to a user without a number.
  pub session_handler-IsEntitled :
      (s : ServerState (Shared e)) (c : Connection (Shared e) e.Db)
      → IsEntitled cfg c
          (session_handler e sort_rows sort_nodes connect describe during cfg cache rune_count
            format_time config_text dial shell meanwhile s c).1
  unfolding session_handler
  session_handler-IsEntitled s c = elim (Option-cases c.context_user) [
    | inl q ↦ is not_auth_user (ground arith) (unknown (inl q))
    | inr (u, q) ↦ elim (Bool-cases (str_eq u.id [])) [
      | inl n ↦ is not_auth_user (ground arith) (unknown (inr (u, q, (eq_iff u.id []).0 n)))
      | inr n ↦
          is (served s c u) (ground arith)
            (serve_user-IsEntitled s c u q (ground (arith, eq_iff u.id [])))
    ]
  ]
    where
      is :
          (r : Report (Shared e) e.Db)
          → (session_handler e sort_rows sort_nodes connect describe during cfg cache rune_count
              format_time config_text dial shell meanwhile s c).1
            ≡ r
          → IsEntitled cfg c r
          → IsEntitled cfg c
              (session_handler e sort_rows sort_nodes connect describe during cfg cache rune_count
                format_time config_text dial shell meanwhile s c).1
      is r q h = subst (IsEntitled cfg c) (sym q) h
