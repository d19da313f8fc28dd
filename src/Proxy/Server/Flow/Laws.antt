-- ===== src/Proxy/Server/Flow/Laws.antt =====
-- When a connection is bridged, and what is left of its session.
use gojump.Prelude.{
  ℕ, Str, List, Bool, true, false, Option, none, some, ◌⊎◌, inl, inr, if◌then◌else◌, str_eq, eq_iff,
  ◌∙◌, ◌≡◌, ◌↔◌, refl, sym, subst, arith, Bool-cases, Option-cases,
}
use gojump.Prelude.Int.{ℤ}
use gojump.Prelude.Dict.{lookup, lookup-delete, str_eq_refl}
use gojump.Model.Expire.{ExpireInfo, is_expired}
use gojump.Store.{Engine, Error}
use gojump.Core.{Config}
use gojump.Core.Sessions.{session_success, session_failed, session_disconnect}
use gojump.Core.Sessions.Laws.{lookup-disconnect}
use gojump.Auth.Confirm.{Event}
use gojump.Proxy.Server.{Server, protocol_ssh, check_required_auth, remove_common_switch}
use gojump.Proxy.Server.Flow.{
  bridged, Shared, check_login_confirm, get_server_conn, send_connect_error_msg, close_session,
  open_session, serve, proxy,
}
use gojump.Proxy.Server.Flow.Auth.{check_required_auth-KeepsLogin}
use gojump.Proxy.Server.Flow.Confirmed.{IsConfirmed, confirm_iff}
use gojump.Proxy.Server.Credentials.{HasCredentials}
use gojump.Proxy.Server.Credentials.Laws.{HasCredentials-protocol, auth_iff}

-- A cached client has given a connection, or without one the dial does.
pub data IsReached (connect : Server → Error ⊎ ℕ) (s : Server) : Type 0 where
  kept : (conn : ℕ) → s.cache_ssh_connection ≡ some conn → IsReached connect s
  dialled : (conn : ℕ) → s.cache_ssh_connection ≡ none → connect s ≡ inr conn → IsReached connect s

module _ (e : Engine) (connect : Server → Error ⊎ ℕ) (describe : Error → Str)
    (during : Shared e → Shared e) where
  serve-bridged :
      (w : Shared e) (s : Server) (date later : Str)
      → ((serve e connect describe during w s date later).1 ≡ bridged)
        ↔ ((conn : ℕ) × (get_server_conn e connect describe during s ≡ inr conn))
  unfolding serve
  serve-bridged w s date later = split (get_server_conn e connect describe during s) refl
    where
      split :
          (r : Error ⊎ ℕ)
          → get_server_conn e connect describe during s ≡ r
          → ((serve e connect describe during w s date later).1 ≡ bridged)
            ↔ ((conn : ℕ) × (get_server_conn e connect describe during s ≡ inr conn))
      split (inl x) q = (λ h. ground arith, λ r. let (conn, h) = r in ground arith)
      split (inr conn) q = (λ h. (conn, q), λ r. ground arith)

  conn-IsReached :
      (s : Server) (conn : ℕ)
      → get_server_conn e connect describe during s ≡ inr conn
      → IsReached connect s
  unfolding get_server_conn
  conn-IsReached s conn h = elim (Option-cases s.cache_ssh_connection) [
    | inl c ↦ dialled conn c (ground (arith, h, c))
    | inr (old, c) ↦ kept old c
  ]

  IsReached-conn :
      (s : Server)
      → s.conn_opts.system_user.protocol ≡ protocol_ssh
      → IsReached connect s
      → (conn : ℕ) × (get_server_conn e connect describe during s ≡ inr conn)
  unfolding get_server_conn
  IsReached-conn s ssh (kept conn c) = (conn, ground (arith, c))
  IsReached-conn s ssh (dialled conn c q) =
      (conn, ground (arith, c, q, eq_iff s.conn_opts.system_user.protocol protocol_ssh))

  close_session-lookup :
      (w : Shared e) (s : Server) (date other : Str)
      → s.session_info.id ≡ s.id
      → let w' = close_session e connect describe during w s date in
        (lookup other w'.sess_manager
          ≡ (if str_eq s.id other then none else lookup other w.sess_manager))
        × (lookup other w'.core.session
            ≡ (if str_eq s.id other then none else lookup other w.core.session))
  unfolding close_session remove_common_switch
  close_session-lookup w s date other h = (
    lookup-delete s.id other w.sess_manager,
    subst
        (λ i.
          lookup other (session_disconnect e w.core i date).0.session
          ≡ (if str_eq s.id other then none else lookup other w.core.session))
        (sym h) (lookup-disconnect e w.core s.id other date),
  )

  serve-close_session :
      (w : Shared e) (s : Server) (date later : Str)
      → (v : Shared e) × (at : Str) × ((serve e connect describe during w s date later).0
          ≡ close_session e connect describe during v s at)
  unfolding serve
  serve-close_session w s date later =
      split (get_server_conn e connect describe during s) refl
        (Bool-cases (send_connect_error_msg e connect describe during s))
    where
      split :
          (r : Error ⊎ ℕ)
          → get_server_conn e connect describe during s ≡ r
          → (send_connect_error_msg e connect describe during s ≡ true)
            ⊎ (send_connect_error_msg e connect describe during s ≡ false)
          → (v : Shared e) × (at : Str) × ((serve e connect describe during w s date later).0
              ≡ close_session e connect describe during v s at)
      split (inl x) q (inl b) =
          (open_session e connect describe during w s date, date, ground arith)
      split (inl x) q (inr b) =
          let w1 = open_session e connect describe during w s date in
          let c = (session_failed e w1.core s.session_info.id (describe x) date).0 in
          (record w1 { core = c }, date, ground arith)
      split (inr conn) q b =
          let w1 = open_session e connect describe during w s date in
          let c = (session_success e w1.core s.session_info.id date).0 in
          (during (record w1 { core = c }), later, ground arith)

  -- Once a connection whose session carries the number of its server has been served, whether the
  -- asset refused it, the error message panicked or the bridge ran, neither the session manager nor
  -- the core has an entry of its session left: for every effect that other connections have while
  -- the bridge runs.
  pub serve_closes :
      (w : Shared e) (s : Server) (date later : Str)
      → s.session_info.id ≡ s.id
      → let w' = (serve e connect describe during w s date later).0 in
        (lookup s.id w'.sess_manager ≡ none) × (lookup s.id w'.core.session ≡ none)
  unfolding serve
  serve_closes w s date later h =
      let (v, at, q) = serve-close_session w s date later in
      let (gone, ended) = close_session-lookup v s at s.id h in
      (rw (q, gone, str_eq_refl s.id), rw (q, ended, str_eq_refl s.id))

  module _ (cfg : Config) (cache : Str → Option ℕ) where
    proxy-steps :
        (w : Shared e) (s : Server) (lines : List Str) (password : Option Str) (now : ℤ)
        (fresh_id date later : Str) (events : List (Event e.Db))
        → ((proxy e connect describe during cfg cache w s lines password now fresh_id date later
              events).1
            ≡ bridged)
          ↔ ((s1 : Server) × (info : ExpireInfo) × (conn : ℕ) × (check_required_auth cfg cache s
                  lines password
                ≡ some s1)
              × (s1.expire_info ≡ some info)
              × (is_expired info now ≡ false)
              × ((check_login_confirm e w s1 fresh_id date events).1 ≡ some true)
              × (get_server_conn e connect describe during s1 ≡ inr conn))
    unfolding proxy
    proxy-steps w s lines password now fresh_id date later events = (forth, back)
      where
        Bridged : Type 0
        Bridged =
            (s1 : Server) × (info : ExpireInfo) × (conn : ℕ) × (check_required_auth cfg cache s
                lines password
              ≡ some s1)
            × (s1.expire_info ≡ some info)
            × (is_expired info now ≡ false)
            × ((check_login_confirm e w s1 fresh_id date events).1 ≡ some true)
            × (get_server_conn e connect describe during s1 ≡ inr conn)

        confirmed :
            (s1 : Server) (info : ExpireInfo) (ok : Option Bool)
            → check_required_auth cfg cache s lines password ≡ some s1
            → s1.expire_info ≡ some info
            → is_expired info now ≡ false
            → (check_login_confirm e w s1 fresh_id date events).1 ≡ ok
            → (proxy e connect describe during cfg cache w s lines password now fresh_id date later
                events).1
              ≡ bridged
            → Bridged
        confirmed s1 info none a i x o h = ground arith
        confirmed s1 info (some false) a i x o h = ground arith
        confirmed s1 info (some true) a i x o h =
            let w1 = (check_login_confirm e w s1 fresh_id date events).0 in
            let (conn, q) = (serve-bridged w1 s1 date later).0 (ground arith) in
            (s1, info, conn, a, i, x, o, q)

        forth :
            (proxy e connect describe during cfg cache w s lines password now fresh_id date later
                events).1
              ≡ bridged
            → Bridged
        forth h = elim (Option-cases (check_required_auth cfg cache s lines password)) [
          | inl a ↦ absurd (ground arith)
          | inr (s1, a) ↦ elim (Option-cases s1.expire_info) [
            | inl i ↦ absurd (ground arith)
            | inr (info, i) ↦ elim (Bool-cases (is_expired info now)) [
              | inl x ↦ absurd (ground arith)
              | inr x ↦
                  confirmed s1 info (check_login_confirm e w s1 fresh_id date events).1 a i x refl h
            ]
          ]
        ]

        back :
            Bridged
            → (proxy e connect describe during cfg cache w s lines password now fresh_id date later
                events).1
              ≡ bridged
        back (s1, info, conn, a, i, x, o, q) =
            let w1 = (check_login_confirm e w s1 fresh_id date events).0 in
            let r = (serve-bridged w1 s1 date later).1 (conn, q) in ground arith

    -- A connection is bridged exactly when its credentials are complete, the permission was read and
    -- has not expired at `now`, the database asks for no confirmation or the ticket was stored and
    -- then approved, and there is a cached connection or the asset accepts a new one.
    pub proxy-bridged :
        (w : Shared e) (s : Server) (lines : List Str) (password : Option Str) (now : ℤ)
        (fresh_id date later : Str) (events : List (Event e.Db))
        → ((proxy e connect describe during cfg cache w s lines password now fresh_id date later
              events).1
            ≡ bridged)
          ↔ ((s1 : Server) × (info : ExpireInfo) × HasCredentials cfg cache s lines password s1
              × (s.expire_info ≡ some info)
              × (is_expired info now ≡ false)
              × IsConfirmed e w.core.db s1 fresh_id date events
              × IsReached connect s1)
    proxy-bridged w s lines password now fresh_id date later events = (
      λ h.
          let (s1, info, conn, a, i, x, o, q) =
            (proxy-steps w s lines password now fresh_id date later events).0 h in
          let same = check_required_auth-KeepsLogin cfg cache s s1 lines password a in
          (
            s1,
            info,
            (auth_iff cfg cache s s1 lines password).0 a,
            sym same.expire_info ∙ i,
            x,
            (confirm_iff e w s1 fresh_id date events).0 o,
            conn-IsReached s1 conn q,
          ),
      λ h.
          let (s1, info, c, i, x, o, q) = h in
          let a = (auth_iff cfg cache s s1 lines password).1 c in
          let same = check_required_auth-KeepsLogin cfg cache s s1 lines password a in
          let (conn, r) =
            IsReached-conn s1 (HasCredentials-protocol cfg cache s s1 lines password c) q in
          (proxy-steps w s lines password now fresh_id date later events).1 (
            s1,
            info,
            conn,
            a,
            same.expire_info ∙ i,
            x,
            (confirm_iff e w s1 fresh_id date events).1 o,
            r,
          ),
    )
