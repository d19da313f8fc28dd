-- ===== src/Handler/Login/Laws.antt =====
-- What a login that gets through has passed.
use gojump.Prelude.{
  ℕ, Str, [], true, false, Option, none, some, ◌⊎◌, inl, inr, codes, eq_iff, In, ◌≡◌, ◌≢◌, ◌∙◌,
  refl, sym, subst, arith, Option-cases,
}
use gojump.Prelude.Dict.{Dict, lookup}
use gojump.Model.{Asset, User, SystemUser}
use gojump.Model.Expire.{ExpireInfo, is_expired}
use gojump.Model.Protocol.{is_support_protocol}
use gojump.Store.{Engine, Error}
use gojump.Core.{Config}
use gojump.Core.Assets.{
  Item, or_empty, get_asset_by_id, get_asset_by_name, get_system_users_by_user_id_and_asset_id,
  query_asset_user_expire, query_direct_login_info,
}
use gojump.Core.Assets.Laws.{direct_login_allowed}
use gojump.Proxy.Server.{Server, ConnectionOptions, protocol_ssh, new_server}
use gojump.Proxy.Server.Flow.{Shared, bridged, proxy}
use gojump.Proxy.Server.Flow.Auth.{check_required_auth-KeepsLogin}
use gojump.Proxy.Server.Flow.Confirmed.{IsConfirmed}
use gojump.Proxy.Server.Credentials.Laws.{auth_iff}
use gojump.Proxy.Server.Flow.Laws.{proxy-bridged}
use gojump.Proxy.Server.Flow.Panic.{new_server-expire_info}
use gojump.Handler.Select.{SelectType, unset, type_asset, type_node_asset}
use gojump.Handler.Login.{
  Visit, Ended, refused, served, choose_system_user, connect_to, proxy_asset, proxy_target,
  select_proxy, direct_proxy,
}
use gojump.Handler.Login.Choice.{choose_system_user-In}

-- What a bridged connection has passed: the protocol is ssh and the asset offers it, the database
-- gives the user a permission on the asset that has not expired, and it asks for no confirmation of
-- this user's logins to this asset, or the ticket of this login was stored and then approved.
pub record IsPermitted (e : Engine) (w : Shared e) (opts : ConnectionOptions) (v : Visit e.Db)
    : Type 0 where
  pub ssh : opts.system_user.protocol ≡ protocol_ssh
  pub offered : is_support_protocol opts.asset protocol_ssh ≡ true
  pub info : ExpireInfo
  pub read : (query_asset_user_expire e w.core.db opts.user.id opts.asset.id).0 ≡ some info
  pub unexpired : is_expired info v.now ≡ false
  pub server : Server
  pub for_user : server.conn_opts.user ≡ opts.user
  pub for_asset : server.conn_opts.asset ≡ opts.asset
  pub confirmed : IsConfirmed e w.core.db server v.ticket_id v.date v.events

module _ (e : Engine) where
  new_server-opts :
      (db : e.Db) (opts : ConnectionOptions) (id login_from remote_addr : Str) (s : Server)
      → new_server e db opts id login_from remote_addr ≡ inr s
      → (s.conn_opts ≡ opts)
        × (opts.system_user.protocol ≡ protocol_ssh)
        × (is_support_protocol opts.asset opts.system_user.protocol ≡ true)
  unfolding new_server
  new_server-opts db opts id login_from remote_addr s h =
      ground (arith, eq_iff opts.system_user.protocol protocol_ssh)

  module _ (connect : Server → Error ⊎ ℕ) (describe : Error → Str) (during : Shared e → Shared e)
      (cfg : Config) (cache : Str → Option ℕ) where
    made-IsPermitted :
        (w : Shared e) (opts : ConnectionOptions) (v : Visit e.Db) (s : Server)
        → new_server e w.core.db opts v.server_id v.login_from v.remote_addr ≡ inr s
        → (proxy e connect describe during cfg cache w s v.username_lines v.password v.now
            v.ticket_id v.date v.later v.events).1
          ≡ bridged
        → IsPermitted e w opts v
    made-IsPermitted w opts v s made h =
        let (s1, info, complete, read, valid, ok, reached) =
          (proxy-bridged e connect describe during cfg cache w s v.username_lines v.password v.now
              v.ticket_id v.date v.later v.events).0
            h in
        let auth = (auth_iff cfg cache s s1 v.username_lines v.password).1 complete in
        let kept = check_required_auth-KeepsLogin cfg cache s s1 v.username_lines v.password auth in
        let (same, ssh, offered) =
          new_server-opts w.core.db opts v.server_id v.login_from v.remote_addr s made in
        let first =
          new_server-expire_info e w.core.db opts v.server_id v.login_from v.remote_addr s made in
        record {
          ssh = ssh;
          offered = subst (λ p. is_support_protocol opts.asset p ≡ true) ssh offered;
          info = info;
          read = sym first ∙ read;
          unexpired = valid;
          server = s1;
          for_user = cc;
          for_asset = cc;
          confirmed = ok;
        }

    connect_to-IsPermitted :
        (w : Shared e) (opts : ConnectionOptions) (v : Visit e.Db)
        → (connect_to e connect describe during cfg cache w opts v).1 ≡ served bridged
        → IsPermitted e w opts v
    unfolding connect_to
    connect_to-IsPermitted w opts v h =
        go (new_server e w.core.db opts v.server_id v.login_from v.remote_addr) refl
      where
        go :
            (r : Error ⊎ Server)
            → new_server e w.core.db opts v.server_id v.login_from v.remote_addr ≡ r
            → IsPermitted e w opts v
        go (inl err) q = absurd (ground arith)
        go (inr s) q = made-IsPermitted w opts v s q (ground arith)

    -- How the asset and the system user of a row were found.
    pub record IsChosen (w : Shared e) (user : User) (target_id : Str) (asset : Asset)
        (u : SystemUser) : Type 0 where
      pub found : get_asset_by_id e w.core.db target_id ≡ (asset, none)
      pub named : asset.id ≢ []
      pub active : asset.is_active ≡ true
      pub listed : In u (get_system_users_by_user_id_and_asset_id e w.core.db user.id asset.id).0

    abbrev pub Opened : Shared e → User → Str → Visit e.Db → Type 0
    Opened w user target_id v =
        (asset : Asset) × (u : SystemUser) × IsChosen w user target_id asset u
        × IsPermitted e w (record { user = user; system_user = u; asset = asset }) v

    proxy_asset-listed :
        (w : Shared e) (user : User) (asset : Asset) (v : Visit e.Db)
        → (proxy_asset e connect describe during cfg cache w user asset v).1 ≡ served bridged
        → (u : SystemUser) × In u
            (get_system_users_by_user_id_and_asset_id e w.core.db user.id asset.id).0
          × IsPermitted e w (record { user = user; system_user = u; asset = asset }) v
    unfolding proxy_asset
    proxy_asset-listed w user asset v h =
        let (users, err) = get_system_users_by_user_id_and_asset_id e w.core.db user.id asset.id in
        elim (Option-cases err) [
          | inr (x, q) ↦ absurd (ground arith)
          | inl q ↦ elim (Option-cases (choose_system_user users v.choices)) [
            | inl c ↦ absurd (ground arith)
            | inr (u, c) ↦
                let opts : ConnectionOptions = record {
                  user = user;
                  system_user = u;
                  asset = asset;
                } in
                let run : (connect_to e connect describe during cfg cache w opts v).1
                    ≡ served bridged =
                  ground arith in
                (u, choose_system_user-In users v.choices u c, connect_to-IsPermitted w opts v run)
          ]
        ]

    proxy_target-inv :
        (w : Shared e) (user : User) (target_id : Str) (v : Visit e.Db)
        → (proxy_target e connect describe during cfg cache w user target_id v).1 ≡ served bridged
        → let asset = (get_asset_by_id e w.core.db target_id).0 in
          (get_asset_by_id e w.core.db target_id ≡ (asset, none))
          × (asset.id ≢ [])
          × (asset.is_active ≡ true)
          × ((proxy_asset e connect describe during cfg cache w user asset v).1 ≡ served bridged)
    unfolding proxy_target
    proxy_target-inv w user target_id v h =
        let asset = (get_asset_by_id e w.core.db target_id).0 in
        (ground arith, ground (arith, eq_iff asset.id []), ground arith, ground arith)

    proxy_target-Opened :
        (w : Shared e) (user : User) (target_id : Str) (v : Visit e.Db)
        → (proxy_target e connect describe during cfg cache w user target_id v).1 ≡ served bridged
        → Opened w user target_id v
    proxy_target-Opened w user target_id v h =
        opened (proxy_target-inv w user target_id v h)
          (proxy_asset-listed w user (get_asset_by_id e w.core.db target_id).0 v)
      where
        asset : Asset
        asset = (get_asset_by_id e w.core.db target_id).0

        opened :
            (get_asset_by_id e w.core.db target_id ≡ (asset, none))
              × (asset.id ≢ [])
              × (asset.is_active ≡ true)
              × ((proxy_asset e connect describe during cfg cache w user asset v).1
                  ≡ served bridged)
            → ((proxy_asset e connect describe during cfg cache w user asset v).1 ≡ served bridged
                → (u : SystemUser) × In u
                    (get_system_users_by_user_id_and_asset_id e w.core.db user.id asset.id).0
                  × IsPermitted e w (record { user = user; system_user = u; asset = asset }) v)
            → Opened w user target_id v
        opened (found, named, active, run) listed =
            let (u, i, ok) = listed run in
            (asset, u, record { found = found; named = named; active = active; listed = i }, ok)

    -- A login from the client's table that ends in a bridged connection went to an active asset with
    -- the number of the row, as a system user that the database lists for this user on this asset,
    -- over ssh, within a permission that had not expired, and with the confirmation of this login
    -- given where the database asks for one.
    pub select_proxy_permitted :
        (t : SelectType) (w : Shared e) (user : User) (target : Item) (v : Visit e.Db)
        → (select_proxy e connect describe during cfg cache t w user target v).1 ≡ served bridged
        → (target_id : Str) × (lookup (codes "id") target ≡ some target_id)
          × Opened w user target_id v
    unfolding select_proxy
    select_proxy_permitted t w user target v h = elim (Option-cases (lookup (codes "id") target)) [
      | inl q ↦ absurd (ground arith)
      | inr (target_id, q) ↦ (target_id, q, by_type t (ground arith))
    ]
      where
        by_type :
            (t : SelectType) {target_id : Str}
            → (elim t as (λ x. Shared e × Ended) [
              | unset ↦ (w, refused)
              | type_asset ↦ proxy_target e connect describe during cfg cache w user target_id v
              | type_node_asset ↦
                  proxy_target e connect describe during cfg cache w user target_id v
            ]).1
              ≡ served bridged
            → Opened w user target_id v
        by_type unset q = absurd (ground arith)
        by_type type_asset {target_id} q = proxy_target-Opened w user target_id v q
        by_type type_node_asset {target_id} q = proxy_target-Opened w user target_id v q

    -- A direct login that ends in a bridged connection went to the asset of the name that was asked
    -- for, as a system user of the name that was asked for, whom the database lists for this user on
    -- this asset, over ssh, within a permission that had not expired, and with the confirmation of
    -- this login given where the database asks for one.
    pub direct_proxy-IsPermitted :
        (w : Shared e) (user : User) (direct_login : Dict Str) (v : Visit e.Db)
        → (direct_proxy e connect describe during cfg cache w user direct_login v).1
          ≡ served bridged
        → let (asset, u, err) = query_direct_login_info e w.core.db user.id direct_login in
          (get_asset_by_name e w.core.db (or_empty (lookup (codes "asset") direct_login))
            ≡ (asset, none))
          × (u.username ≡ or_empty (lookup (codes "sysuser") direct_login))
          × In u (get_system_users_by_user_id_and_asset_id e w.core.db user.id asset.id).0
          × IsPermitted e w (record { user = user; system_user = u; asset = asset }) v
    unfolding direct_proxy
    direct_proxy-IsPermitted w user direct_login v h =
        let (asset, u, err) = query_direct_login_info e w.core.db user.id direct_login in
        let opts : ConnectionOptions = record { user = user; system_user = u; asset = asset } in
        let none_wrong : err ≡ none = ground arith in
        let run : (connect_to e connect describe during cfg cache w opts v).1 ≡ served bridged =
          ground arith in
        let allowed = direct_login_allowed e w.core.db user.id direct_login none_wrong in
        (allowed.0, allowed.3, allowed.4, connect_to-IsPermitted w opts v run)
