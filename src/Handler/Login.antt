-- ===== src/Handler/Login.antt =====
-- From a choice of the client to a connection: Proxy of pkg/handler/selectHandler.go, proxyAsset of
-- asset.go, chooseSystemUser of interactive.go, and DirectHandler of directHandler.go. What the user
-- types and the outside draws on the way is a `Visit`.
pub mod Choice
pub mod Laws
use gojump.Prelude.{
  ℕ, zero, suc, Str, List, [], ◌∷◌, Bool, true, false, not, ◌||◌, Option, none, some, ◌⊎◌, inl, inr,
  if◌then◌else◌, codes, str_eq, any,
}
use gojump.Prelude.Int.{ℤ}
use gojump.Prelude.Dict.{Dict, lookup}
use gojump.Prelude.Atoi.{atoi, trim_space, numbered}
use gojump.Model.{Asset, User, SystemUser}
use gojump.Model.Protocol.{to_lower}
use gojump.Store.{Engine, Error}
use gojump.Core.{Config}
use gojump.Core.Assets.{
  Item, get_asset_by_id, get_system_users_by_user_id_and_asset_id, query_direct_login_info,
}
use gojump.Auth.Confirm.{Event}
use gojump.Handler.Select.{SelectType, unset, type_asset, type_node_asset}
use gojump.Proxy.Server.{Server, ConnectionOptions, new_server}
use gojump.Proxy.Server.Flow.{Shared, Outcome, proxy}

pub record Visit (Db : Type 0) : Type 0 where
  pub choices : List Str
  pub username_lines : List Str
  pub password : Option Str
  pub now : ℤ
  pub server_id : Str
  pub ticket_id : Str
  pub login_from : Str
  pub remote_addr : Str
  pub date : Str
  pub later : Str
  pub events : List (Event Db)

-- The words that lead back.
abbrev pub back_words : List Str
back_words = codes "q" ∷ codes "b" ∷ codes "quit" ∷ codes "exit" ∷ codes "back" ∷ []

-- The loop of chooseSystemUser; the end of the lines is the reader's error.
unfoldable pub choose_from : List SystemUser → List Str → Option SystemUser
choose_from users [] = none
choose_from users (raw ∷ lines) =
    let rest = choose_from users lines in
    let line = trim_space raw in
    if any (λ w. str_eq (to_lower line) w) back_words
    then none
    else elim (numbered (atoi line) users) [ none ↦ rest | some u ↦ some u ]

unfoldable pub choose_system_user : List SystemUser → List Str → Option SystemUser
unfolding choose_from
choose_system_user [] lines = none
choose_system_user (u ∷ []) lines = some u
choose_system_user (u ∷ v ∷ us) lines = choose_from (u ∷ v ∷ us) lines

-- How a login ends before there is a server: nothing is done, or a run-time panic.
pub data Ended : Type 0 where
  refused crashed : Ended
  served : Outcome → Ended

module _ (e : Engine) (connect : Server → Error ⊎ ℕ) (describe : Error → Str)
    (during : Shared e → Shared e) (cfg : Config) (cache : Str → Option ℕ) where
  -- NewServer and srv.Proxy().
  unfoldable pub connect_to : Shared e → ConnectionOptions → Visit e.Db → Shared e × Ended
  connect_to w opts v = elim (new_server e w.core.db opts v.server_id v.login_from v.remote_addr) [
    | inl err ↦ (w, refused)
    | inr s ↦
        let (w', outcome) =
          proxy e connect describe during cfg cache w s v.username_lines v.password v.now
            v.ticket_id v.date v.later v.events in
        (w', served outcome)
  ]

  unfoldable pub proxy_asset : Shared e → User → Asset → Visit e.Db → Shared e × Ended
  unfolding connect_to
  proxy_asset w user asset v =
      let (system_users, err) =
        get_system_users_by_user_id_and_asset_id e w.core.db user.id asset.id in
      elim err [
        | some x ↦ (w, refused)
        | none ↦ elim (choose_system_user system_users v.choices) [
          | none ↦ (w, refused)
          | some u ↦ connect_to w (record { user = user; system_user = u; asset = asset }) v
        ]
      ]

  -- The cases of TypeAsset and TypeNodeAsset.
  unfoldable pub proxy_target : Shared e → User → Str → Visit e.Db → Shared e × Ended
  unfolding proxy_asset
  proxy_target w user target_id v =
      let (asset, err) = get_asset_by_id e w.core.db target_id in
      elim err [
        | some x ↦ (w, refused)
        | none ↦
            if str_eq asset.id [] || not asset.is_active
            then (w, refused)
            else proxy_asset w user asset v
      ]

  -- UserSelectHandler.Proxy. A row without an "id" fails the type assertion.
  unfoldable pub select_proxy : SelectType → Shared e → User → Item → Visit e.Db → Shared e × Ended
  unfolding proxy_target
  select_proxy t w user target v = elim (lookup (codes "id") target) [
    | none ↦ (w, crashed)
    | some target_id ↦ elim t [
      | unset ↦ (w, refused)
      | type_asset ↦ proxy_target w user target_id v
      | type_node_asset ↦ proxy_target w user target_id v
    ]
  ]

  -- NewDirectHandler and DirectHandler.Proxy.
  unfoldable pub direct_proxy : Shared e → User → Dict Str → Visit e.Db → Shared e × Ended
  unfolding connect_to
  direct_proxy w user direct_login v =
      let (asset, sys_user, err) = query_direct_login_info e w.core.db user.id direct_login in
      elim err [
        | some x ↦ (w, refused)
        | none ↦ connect_to w (record { user = user; system_user = sys_user; asset = asset }) v
      ]
