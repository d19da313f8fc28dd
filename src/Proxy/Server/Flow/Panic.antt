-- ===== src/Proxy/Server/Flow/Panic.antt =====
-- What an expiry that could not be read does to a connection.
use gojump.Prelude.{ℕ, Str, List, Option, none, some, ◌⊎◌, inr, ◌≡◌, ◌∙◌, arith}
use gojump.Prelude.Int.{ℤ}
use gojump.Store.{Engine, Error}
use gojump.Core.{Config}
use gojump.Core.Assets.{query_asset_user_expire}
use gojump.Auth.Confirm.{Event}
use gojump.Proxy.Server.{Server, ConnectionOptions, new_server, check_required_auth}
use gojump.Proxy.Server.Flow.Auth.{check_required_auth-KeepsLogin}
use gojump.Proxy.Server.Flow.{panicked, Shared, proxy}

module _ (e : Engine) where
  query_asset_user_expire-error :
      (db : e.Db) (user_id asset_id : Str) (x : Error)
      → (query_asset_user_expire e db user_id asset_id).1 ≡ some x
      → (query_asset_user_expire e db user_id asset_id).0 ≡ none
  unfolding query_asset_user_expire
  query_asset_user_expire-error db user_id asset_id x h = ground arith

  pub new_server-expire_info :
      (db : e.Db) (opts : ConnectionOptions) (fresh_id login_from remote_addr : Str) (s : Server)
      → new_server e db opts fresh_id login_from remote_addr ≡ inr s
      → s.expire_info ≡ (query_asset_user_expire e db opts.user.id opts.asset.id).0
  unfolding new_server
  new_server-expire_info db opts fresh_id login_from remote_addr s h = ground arith

  module _ (connect : Server → Error ⊎ ℕ) (describe : Error → Str) (during : Shared e → Shared e)
      (cfg : Config) (cache : Str → Option ℕ) where
    -- When the query for the expiry of the permission fails, the server is made all the same, and
    -- the connection panics as soon as its credentials are complete.
    pub unread_expiry_panics :
        (w : Shared e) (opts : ConnectionOptions) (fresh_id login_from remote_addr date : Str)
        (s s1 : Server) (x : Error) (lines : List Str) (password : Option Str) (now : ℤ)
        (ticket_id later : Str) (events : List (Event e.Db))
        → new_server e w.core.db opts fresh_id login_from remote_addr ≡ inr s
        → (query_asset_user_expire e w.core.db opts.user.id opts.asset.id).1 ≡ some x
        → check_required_auth cfg cache s lines password ≡ some s1
        → proxy e connect describe during cfg cache w s lines password now ticket_id date later
            events
          ≡ (w, panicked)
    unfolding proxy
    unread_expiry_panics w opts fresh_id login_from remote_addr date s s1 x lines password now
          ticket_id later events made q a =
        let kept = (check_required_auth-KeepsLogin cfg cache s s1 lines password a).expire_info in
        let info = new_server-expire_info w.core.db opts fresh_id login_from remote_addr s made in
        let nil = query_asset_user_expire-error w.core.db opts.user.id opts.asset.id x q in
        let unread : s1.expire_info ≡ none = kept ∙ info ∙ nil in ground arith
