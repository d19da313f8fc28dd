-- ===== src/Server/Vscode/Laws.antt =====
-- Who is served in VS Code, for how long, and which channels are forwarded.
use gojump.Prelude.{
  ℕ, Str, List, [], ◌∷◌, ◌++◌, Bool, true, false, Option, none, some, ◌⊎◌, inl, inr, codes, ◌≡◌,
  ◌≢◌, ◌↔◌, refl, arith, Option-cases, In,
}
use gojump.Prelude.Int.{ℤ}
use gojump.Prelude.Dict.{Dict, lookup, lookup-delete, str_eq_refl}
use gojump.Model.{Asset, User, SystemUser}
use gojump.Model.Expire.{ExpireInfo, is_expired}
use gojump.Store.{Engine, Error}
use gojump.Core.Assets.{
  or_empty, get_asset_by_name, get_system_users_by_user_id_and_asset_id, query_direct_login_info,
  query_asset_user_expire, query_asset_user_vscode_perm,
}
use gojump.Core.Assets.Laws.{direct_login_allowed}
use gojump.Srvconn.Ssh.{SshClientOptions}
use gojump.Server.Vscode.{
  VscodeReq, Clients, Event, done, timeout, tick, LoopEnd, serving, watch, ended, get_vscode_req,
  add_vscode_req, delete_vscode_req, proxy_vscode_shell, serve_vscode, proxy_vscode, forwarded,
  direct_tcpip, direct_tcpip_channel_handler,
}

-- The loop is over by any tick that finds the permission expired.
pub watch-expired :
    (info : ExpireInfo) (events : List Event) (now : ℤ)
    → is_expired info now ≡ true
    → watch info (events ++ (tick now ∷ [])) ≢ serving
unfolding watch
watch-expired info [] now h q = ground arith
watch-expired info (done ∷ events) now h q = cc
watch-expired info (timeout ∷ events) now h q = cc
watch-expired info (tick t ∷ events) now h q = ground (arith, watch-expired info events now h)

-- A channel is forwarded exactly when forwarding is enabled, the address parses, the connection has a
-- registered VS Code request, its client reaches the address, and the channel is accepted.
pub forwarded_iff :
    (e : Engine) (dial_via : ℕ → Str → Option Error) (accept : Option Error) (enabled : Bool)
    (s : Clients e.Db) (ctx_id dest : Option Str) (req : VscodeReq)
    → (direct_tcpip e dial_via accept enabled s ctx_id dest ≡ forwarded req) ↔ (
        (id : Str) × (addr : Str) × (enabled ≡ true)
        × (ctx_id ≡ some id)
        × (dest ≡ some addr)
        × (get_vscode_req e s id ≡ some req)
        × (dial_via req.client addr ≡ none)
        × (accept ≡ none))
unfolding direct_tcpip direct_tcpip_channel_handler
forwarded_iff e dial_via accept enabled s ctx_id none req =
    (λ h. absurd (cc), λ r. absurd (cc (r.4)))
forwarded_iff e dial_via accept false s ctx_id (some addr) req =
    (λ h. absurd (cc), λ r. absurd (cc (r.2)))
forwarded_iff e dial_via accept true s none (some addr) req =
    (λ h. absurd (cc), λ r. absurd (cc (r.3)))
forwarded_iff e dial_via accept true s (some id) (some addr) req =
    elim (Option-cases (get_vscode_req e s id)) [
      | inl q ↦ (λ h. absurd (ground arith), λ r. absurd (missing q r))
      | inr (found, q) ↦ elim (Option-cases (dial_via found.client addr)) [
        | inr (err, d) ↦ (λ h. absurd (ground arith), λ r. absurd (unreached found q err d r))
        | inl d ↦ elim (Option-cases accept) [
          | inr (err, a) ↦ (λ h. absurd (ground arith), λ r. absurd (refused_by err a r))
          | inl a ↦ (
            λ h.
                let same : found ≡ req = ground arith in
                (id, addr, refl, refl, refl, ground arith, rw (← same) d, a),
            λ r. forwards r,
          )
        ]
      ]
    ]
  where
    Passed : Type 0
    Passed =
        (id' : Str) × (addr' : Str) × (true ≡ true)
        × (some id ≡ some id')
        × (some addr ≡ some addr')
        × (get_vscode_req e s id' ≡ some req)
        × (dial_via req.client addr' ≡ none)
        × (accept ≡ none)

    missing : get_vscode_req e s id ≡ none → Passed → ⊥
    missing q (id', addr', t, i, j, g, d, a) = ground arith

    unreached :
        (found : VscodeReq)
        → get_vscode_req e s id ≡ some found
        → (err : Error) → dial_via found.client addr ≡ some err
        → Passed
        → ⊥
    unreached found q err d (id', addr', t, i, j, g, d', a) = ground arith

    refused_by : (err : Error) → accept ≡ some err → Passed → ⊥
    refused_by err a (id', addr', t, i, j, g, d, a') = ground arith

    forwards : Passed → direct_tcpip e dial_via accept true s (some id) (some addr) ≡ forwarded req
    forwards (id', addr', t, i, j, g, d, a) = ground arith

module _ (e : Engine) (dial : Asset → SystemUser → Error ⊎ (ℕ × SshClientOptions))
    (shell : Option Error) (during : Clients e.Db → Clients e.Db) where
  -- Whom a request has let through.
  pub record IsGranted (s : Clients e.Db) (user : User) (direct_login : Dict Str) : Type 0 where
    pub asset : Asset
    pub sys_user : SystemUser
    pub found :
        get_asset_by_name e s.core.db (or_empty (lookup (codes "asset") direct_login))
        ≡ (asset, none)
    pub named : sys_user.username ≡ or_empty (lookup (codes "sysuser") direct_login)
    pub listed :
        In sys_user (get_system_users_by_user_id_and_asset_id e s.core.db user.id asset.id).0
    pub vscode : query_asset_user_vscode_perm e s.core.db user.id asset.id ≡ (true, none)
    pub info : ExpireInfo
    pub read : query_asset_user_expire e s.core.db user.id asset.id ≡ (some info, none)

  -- A shell is served in VS Code only to a user whom the database lists, under the system user that
  -- was asked for, on the asset that was asked for, with the permission for VS Code, and whose expiry
  -- was read.
  pub vscode-IsGranted :
      (s : Clients e.Db) (ctx_id : Option Str) (user : User) (direct_login : Dict Str)
      (events : List Event) (date later : Str) (end : LoopEnd)
      → (proxy_vscode e dial shell during s ctx_id user direct_login events date later).1
        ≡ ended end
      → IsGranted s user direct_login
  unfolding proxy_vscode
  vscode-IsGranted s ctx_id user direct_login events date later end h =
      let (asset, u, err) = query_direct_login_info e s.core.db user.id direct_login in
      let ok : err ≡ none = ground arith in
      let allowed = direct_login_allowed e s.core.db user.id direct_login ok in
      elim (Option-cases (query_asset_user_expire e s.core.db user.id asset.id).0) [
        | inl q ↦ absurd (ground arith)
        | inr (i, q) ↦ record {
          asset = asset;
          sys_user = u;
          found = allowed.0;
          named = allowed.3;
          listed = allowed.4;
          vscode = ground arith;
          info = i;
          read = ground arith;
        }
      ]

  deleted :
      (s : Clients e.Db) (req : VscodeReq) (date : Str)
      → get_vscode_req e (delete_vscode_req e s req date) req.req_id ≡ none
  unfolding get_vscode_req delete_vscode_req
  deleted s req date =
      ground (arith, lookup-delete req.req_id req.req_id s.vscode_clients, str_eq_refl req.req_id)

  shell-unregistered :
      (s : Clients e.Db) (req : VscodeReq) (events : List Event) (date later : Str) (end : LoopEnd)
      → (proxy_vscode_shell e dial shell during s req events date later).1 ≡ ended end
      → end ≢ serving
      → get_vscode_req e
          (proxy_vscode_shell e dial shell during s req events date later).0
          req.req_id
        ≡ none
  unfolding proxy_vscode_shell
  shell-unregistered s req events date later end h over =
      ground (arith, deleted (during (add_vscode_req e s req date)) req later)

  serve-unregistered :
      (s : Clients e.Db) (id : Str) (user : User) (asset : Asset) (u : SystemUser)
      (info : ExpireInfo) (events : List Event) (date later : Str) (end : LoopEnd)
      → (serve_vscode e dial shell during s id user asset u info events date later).1 ≡ ended end
      → end ≢ serving
      → get_vscode_req e
          (serve_vscode e dial shell during s id user asset u info events date later).0
          id
        ≡ none
  unfolding serve_vscode
  serve-unregistered s id user asset u info events date later end h over =
      dialled (dial asset u) refl
    where
      dialled :
          (r : Error ⊎ (ℕ × SshClientOptions))
          → dial asset u ≡ r
          → get_vscode_req e
              (serve_vscode e dial shell during s id user asset u info events date later).0
              id
            ≡ none
      dialled (inl err) q = absurd (ground arith)
      dialled (inr c) q =
          let req : VscodeReq = record {
            req_id = id;
            user = user;
            client = c.0;
            client_cfg = c.1;
            expire_info = info;
          } in
          rw (q, serve_vscode) (shell-unregistered s req events date later end (ground arith) over)

  -- A request that got as far as a shell is served by `serve_vscode`.
  proxy-serve :
      (s : Clients e.Db) (id : Str) (user : User) (direct_login : Dict Str) (events : List Event)
      (date later : Str) (end : LoopEnd)
      → (proxy_vscode e dial shell during s (some id) user direct_login events date later).1
        ≡ ended end
      → (asset : Asset) × (u : SystemUser) × (info : ExpireInfo) × (proxy_vscode e dial shell during
            s
            (some id)
            user
            direct_login
            events
            date
            later
          ≡ serve_vscode e dial shell during s id user asset u info events date later)
  unfolding proxy_vscode
  proxy-serve s id user direct_login events date later end h =
      let (asset, u, err) = query_direct_login_info e s.core.db user.id direct_login in
      elim (Option-cases (query_asset_user_expire e s.core.db user.id asset.id).0) [
        | inl q ↦ absurd (ground arith)
        | inr (i, q) ↦ (asset, u, i, ground arith)
      ]

  -- Once a VS Code shell has ended, whatever the other connections did meanwhile, its connection has
  -- no request, and so forwards no channel.
  pub vscode_unregistered :
      (s : Clients e.Db) (id : Str) (user : User) (direct_login : Dict Str) (events : List Event)
      (date later : Str) (end : LoopEnd)
      → (proxy_vscode e dial shell during s (some id) user direct_login events date later).1
        ≡ ended end
      → end ≢ serving
      → get_vscode_req e
          (proxy_vscode e dial shell during s (some id) user direct_login events date later).0
          id
        ≡ none
  vscode_unregistered s id user direct_login events date later end h over =
      let (asset, u, info, q) = proxy-serve s id user direct_login events date later end h in
      rw q (serve-unregistered s id user asset u info events date later end (rw (← q) h) over)
