-- ===== src/Core/Assets.antt =====
-- pkg/core/asset.go, node.go, systemUser.go and the queries of utils.go on what a user may reach.
-- A row of the client's table, a `map[string]interface{}` that holds texts, is a dictionary.
pub mod Laws
use gojump.Prelude.{
  Str, List, [], ◌∷◌, ◌++◌, map, Bool, true, false, Option, none, some, if◌then◌else◌, codes,
  str_eq,
}
use gojump.Prelude.Int.{ℤ, pos}
use gojump.Prelude.Dict.{Dict, lookup}
use gojump.Model.{Asset, Node, SystemUser, TerminalConfig}
use gojump.Model.Expire.{ExpireInfo}
use gojump.Store.{
  Engine, Error, text, texts, query_into, query_structs, asset_not_found, system_user_not_found,
}

abbrev pub no_asset : Asset
no_asset = record {
  id = [];
  name = [];
  hostname = [];
  ip = [];
  os = [];
  comment = [];
  protocols = [];
  platform = [];
  is_active = false;
}

abbrev pub no_node : Node
no_node = record { id = []; key = []; name = []; asset_ids = [] }

abbrev pub no_system_user : SystemUser
no_system_user = record {
  id = [];
  username = [];
  priority = pos 0;
  protocol = [];
  comment = [];
  password = [];
  private_key = [];
}

abbrev pub no_config : TerminalConfig
no_config = record {
  asset_list_page_size = [];
  header_title = [];
  host_key = [];
  max_idle_time = pos 0;
  asset_list_sort_by_ip = false;
  password_auth = false;
  public_key_auth = false;
  enable_session_share = false;
}

abbrev pub Item : Type 0
Item = Dict Str

unfoldable pub to_item : Asset → Item
to_item v =
    (codes "id", v.id)
    ∷ (codes "hostname", v.hostname)
    ∷ (codes "ip", v.ip)
    ∷ (codes "platform", v.platform)
    ∷ (codes "comment", v.comment)
    ∷ []

-- `for _, v := range nas { aids = append(aids, v.AssetIDs...) }`
collect_ids : List Node → List Str → List Str
collect_ids [] aids = aids
collect_ids (n ∷ ns) aids = collect_ids ns (aids ++ n.asset_ids)

-- `for _, v := range sysUsers { if v.Username == name { sysUser = v } }`: the last one counts.
pub choose : Str → SystemUser → List SystemUser → SystemUser
choose name found [] = found
choose name found (v ∷ vs) = choose name (if str_eq v.username name then v else found) vs

-- `directLogin["asset"]`, on a missing key the empty text.
abbrev pub or_empty : Option Str → Str
or_empty none = []
or_empty (some s) = s

module _ (e : Engine) where
  unfoldable pub get_asset_by_id : e.Db → Str → Asset × Option Error
  get_asset_by_id db id =
      query_into e e.scan_asset no_asset db "SELECT * from ASSET WHERE id = ?" (text id ∷ [])

  unfoldable pub get_asset_by_name : e.Db → Str → Asset × Option Error
  get_asset_by_name db name =
      query_into e e.scan_asset no_asset db "SELECT * from ASSET WHERE name = ?" (text name ∷ [])

  -- getAssets, getNodes and getSystemUsers return no rows beside an error.
  drop_on_error : {M : Type 0} → List M × Option Error → List M × Option Error
  drop_on_error r = elim r.1 [ none ↦ (r.0, none) | some x ↦ ([], some x) ]

  unfoldable pub get_assets : e.Db → List Str → List Asset × Option Error
  unfolding drop_on_error
  get_assets db ids = drop_on_error (
      query_structs e e.scan_asset no_asset db "SELECT * from ASSET WHERE id IN ?" (texts ids ∷ []))

  unfoldable pub get_nodes : e.Db → List Str → List Node × Option Error
  unfolding drop_on_error
  get_nodes db ids =
      drop_on_error
        (query_structs e e.scan_node no_node db "SELECT * from NODE WHERE id IN ?" (texts ids ∷ []))

  unfoldable pub get_system_users : e.Db → List Str → List SystemUser × Option Error
  unfolding drop_on_error
  get_system_users db ids = drop_on_error (
      query_structs e e.scan_system_user no_system_user db "Select * from SYSTEMUSER WHERE id IN ?"
        (texts ids ∷ []))

  -- The rows and the nodes for the client, or an error and neither.
  unfoldable pub get_all_user_perms_assets : e.Db → List Str → List Item × List Node × Option Error
  unfolding collect_ids
  get_all_user_perms_assets db node_ids =
      let (nas, err) = get_nodes db node_ids in
      elim err [
        | some x ↦ ([], [], some x)
        | none ↦
            let (ats, err2) = get_assets db (collect_ids nas []) in
            elim err2 [ some x ↦ ([], [], some x) | none ↦ (map to_item ats, nas, none) ]
      ]

  unfoldable pub get_system_users_by_user_id_and_asset_id :
      e.Db → Str → Str → List SystemUser × Option Error
  get_system_users_by_user_id_and_asset_id db user_id asset_id =
      let (ids, err) =
        query_into e e.scan_texts [] db
          "SELECT sysuserid FROM ASSETUSERINFO where userid = ? and assetid = ?"
          (text user_id ∷ text asset_id ∷ []) in
      elim err [ some x ↦ ([], some x) | none ↦ get_system_users db ids ]

  -- QueryAssetUserExpire: `none` beside an error is the nil pointer that it returns.
  unfoldable pub query_asset_user_expire : e.Db → Str → Str → Option ExpireInfo × Option Error
  query_asset_user_expire db user_id asset_id =
      let (at, err) =
        query_into e e.scan_int (pos 0) db
          "SELECT expireat FROM ASSETUSERINFO where userid = ? and assetid = ?"
          (text user_id ∷ text asset_id ∷ []) in
      elim err [ some x ↦ (none, some x) | none ↦ (some (record { expire_at = at }), none) ]

  unfoldable pub query_asset_user_vscode_perm : e.Db → Str → Str → Bool × Option Error
  query_asset_user_vscode_perm db user_id asset_id =
      let (enable, err) =
        query_into e e.scan_bool false db
          "SELECT enablevscode FROM ASSETUSERINFO where userid = ? and assetid = ?"
          (text user_id ∷ text asset_id ∷ []) in
      elim err [ some x ↦ (false, some x) | none ↦ (enable, none) ]

  unfoldable pub get_terminal_config : e.Db → TerminalConfig × Option Error
  get_terminal_config db =
      let (t, err) = query_into e e.scan_conf no_config db "SELECT * FROM TERMINALCONF" [] in
      elim err [ some x ↦ (no_config, some x) | none ↦ (t, none) ]

  unfoldable pub query_direct_login_info : e.Db → Str → Dict Str → Asset × SystemUser × Option Error
  unfolding choose
  query_direct_login_info db user_id direct_login =
      let asset_name = or_empty (lookup (codes "asset") direct_login) in
      let user_name = or_empty (lookup (codes "sysuser") direct_login) in
      let (asset, err) = get_asset_by_name db asset_name in
      elim err [
        | some x ↦ (asset, no_system_user, some x)
        | none ↦
            if str_eq asset.id []
            then (asset, no_system_user, some (asset_not_found asset_name))
            else (let (sys_users, err2) =
                  get_system_users_by_user_id_and_asset_id db user_id asset.id in
                elim err2 [
                  | some x ↦ (asset, no_system_user, some x)
                  | none ↦
                      let sys_user = choose user_name no_system_user sys_users in
                      if str_eq sys_user.id []
                      then (asset, sys_user, some (system_user_not_found user_name))
                      else (asset, sys_user, none)
                ])
      ]
