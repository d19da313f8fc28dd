-- ===== src/Core/Listings.antt =====
-- The listings for the administrator: the Query functions of pkg/core/asset.go, auth.go, log.go,
-- node.go, systemUser.go and user.go. A line is the columns of its `Sprintf` with a "|" between
-- them. `format_time` stands for the formatting of a Unix time.
pub mod Secrets
use gojump.Prelude.{
  ℕ, Str, List, [], ◌∷◌, map, false, Option, none, some, if◌then◌else◌, codes, str_eq, String,
}
use gojump.Prelude.Int.{ℤ, pos, is_zero}
use gojump.Prelude.Format.{join, itoa, bool_text, pad}
use gojump.Model.{Asset, AssetUserInfo, Node, User, UserSecret, SystemUser, UserLog, LoginTicket}
use gojump.Store.{Engine, Error, Arg, text, query_structs}
use gojump.Core.Assets.{no_asset, no_node, no_system_user}
use gojump.Core.Users.{no_user, no_secret}
use gojump.Core.Tickets.{ticket_open}

abbrev pub no_ticket : LoginTicket
no_ticket = record {
  ticket_id = [];
  state = [];
  approver = [];
  application_date = [];
  approve_date = [];
  username = [];
  asset_name = [];
  sys_username = [];
}

abbrev pub no_log : UserLog
no_log = record { datetime = []; type = []; user = []; log = [] }

abbrev pub no_asset_user_info : AssetUserInfo
no_asset_user_info = record {
  id = [];
  user_id = [];
  asset_id = [];
  expire_at = pos 0;
  sys_user_id = [];
  enable_vscode = false;
  need_confirm = false;
}

columns : List Str → Str
columns cells = join (codes "|") cells

-- What stands for a secret: nothing, or eight stars.
unfoldable pub masked : Str → Str
masked secret = if str_eq secret [] then [] else codes "********"

module _ (rune_count : Str → ℕ) (format_time : ℤ → Str) where
  expiry_text : ℤ → Str
  expiry_text at = if is_zero at then codes "9999-12-31 23:59:59" else format_time at

  unfoldable pub asset_line : Asset → Str
  unfolding columns
  asset_line v = columns (
      pad rune_count 4 v.id
      ∷ pad rune_count 10 v.name
      ∷ pad rune_count 10 v.hostname
      ∷ pad rune_count 39 v.ip
      ∷ pad rune_count 10 v.os
      ∷ pad rune_count 6 (bool_text v.is_active)
      ∷ pad rune_count 10 v.platform
      ∷ pad rune_count 15 (join (codes ",") v.protocols)
      ∷ v.comment
      ∷ [])

  unfoldable pub asset_user_line : AssetUserInfo → Str
  unfolding columns expiry_text
  asset_user_line v = columns (
      pad rune_count 4 v.id
      ∷ pad rune_count 7 v.user_id
      ∷ pad rune_count 8 v.asset_id
      ∷ expiry_text v.expire_at
      ∷ pad rune_count 12 (bool_text v.need_confirm)
      ∷ pad rune_count 14 (bool_text v.enable_vscode)
      ∷ join (codes ",") v.sys_user_id
      ∷ [])

  unfoldable pub node_line : Node → Str
  unfolding columns
  node_line v = columns (
      pad rune_count 4 v.id
      ∷ pad rune_count 10 v.name
      ∷ pad rune_count 10 v.key
      ∷ join (codes ",") v.asset_ids
      ∷ [])

  unfoldable pub system_user_line : SystemUser → Str
  unfolding columns masked
  system_user_line v = columns (
      pad rune_count 4 v.id
      ∷ pad rune_count 10 v.username
      ∷ pad rune_count 8 (itoa v.priority)
      ∷ pad rune_count 8 v.protocol
      ∷ pad rune_count 8 (masked v.password)
      ∷ pad rune_count 11 (masked v.private_key)
      ∷ v.comment
      ∷ [])

  list_or_empty : Option (List Str) → List Str
  list_or_empty none = []
  list_or_empty (some l) = l

  unfoldable pub user_line : User → Str
  unfolding columns expiry_text list_or_empty
  user_line v = columns (
      pad rune_count 4 v.id
      ∷ pad rune_count 10 v.username
      ∷ pad rune_count 6 v.role
      ∷ expiry_text v.expire_at
      ∷ pad rune_count 9 (itoa v.otp_level)
      ∷ pad rune_count 6 (bool_text v.is_active)
      ∷ pad rune_count 16 (join (codes ",") v.node_ids)
      ∷ join (codes ",") (list_or_empty v.addr_white_list)
      ∷ [])

  unfoldable pub user_secret_line : UserSecret → Str
  unfolding columns masked
  user_secret_line v = columns (
      pad rune_count 4 v.user_id
      ∷ pad rune_count 8 (masked v.password)
      ∷ pad rune_count 11 (masked v.private_key)
      ∷ join (codes ",") (map (λ k. codes "********") v.authorized_keys)
      ∷ [])

  unfoldable pub user_log_line : UserLog → Str
  unfolding columns
  user_log_line v =
      columns (v.datetime ∷ pad rune_count 10 v.type ∷ pad rune_count 10 v.user ∷ v.log ∷ [])

  unfoldable pub pending_ticket_line : LoginTicket → Str
  unfolding columns
  pending_ticket_line v = columns (
      v.ticket_id
      ∷ v.application_date
      ∷ pad rune_count 10 v.username
      ∷ pad rune_count 10 v.asset_name
      ∷ pad rune_count 10 v.sys_username
      ∷ [])

  unfoldable pub ticket_line : LoginTicket → Str
  unfolding columns
  ticket_line v = columns (
      v.ticket_id
      ∷ v.application_date
      ∷ pad rune_count 10 v.username
      ∷ pad rune_count 10 v.asset_name
      ∷ pad rune_count 10 v.sys_username
      ∷ pad rune_count 10 v.approver
      ∷ pad rune_count 19 v.approve_date
      ∷ pad rune_count 10 v.state
      ∷ [])

  module _ (e : Engine) where
    -- The shape of all of them: on an error no lines.
    listing :
        {M : Type 0}
        → (e.Doc → M → M × Option Error)
        → M
        → (M → Str)
        → e.Db
        → String
        → List Arg
        → List Str × Option Error
    listing scan zero_value line db sql args =
        let (models, err) = query_structs e scan zero_value db sql args in
        elim err [ some x ↦ ([], some x) | none ↦ (map line models, none) ]

    unfoldable pub query_all_asset : e.Db → List Str × Option Error
    unfolding listing
    query_all_asset db = listing e.scan_asset no_asset asset_line db "SELECT * FROM ASSET" []

    unfoldable pub query_asset_user_info : e.Db → List Str × Option Error
    unfolding listing
    query_asset_user_info db =
        listing e.scan_asset_user_info no_asset_user_info asset_user_line db
          "SELECT * FROM ASSETUSERINFO" []

    unfoldable pub query_all_node : e.Db → List Str × Option Error
    unfolding listing
    query_all_node db = listing e.scan_node no_node node_line db "SELECT * FROM NODE" []

    unfoldable pub query_all_system_user : e.Db → List Str × Option Error
    unfolding listing
    query_all_system_user db =
        listing e.scan_system_user no_system_user system_user_line db "SELECT * FROM SYSTEMUSER" []

    unfoldable pub query_all_user : e.Db → List Str × Option Error
    unfolding listing
    query_all_user db = listing e.scan_user no_user user_line db "SELECT * FROM USER" []

    unfoldable pub query_all_user_secret : e.Db → List Str × Option Error
    unfolding listing
    query_all_user_secret db =
        listing e.scan_secret no_secret user_secret_line db "SELECT * FROM USERSECRET" []

    unfoldable pub query_user_log : e.Db → List Str × Option Error
    unfolding listing
    query_user_log db = listing e.scan_log no_log user_log_line db "SELECT * FROM USERLOG" []

    unfoldable pub query_pending_login_ticket : e.Db → List Str × Option Error
    unfolding listing
    query_pending_login_ticket db =
        listing e.scan_ticket no_ticket pending_ticket_line db
          "SELECT * FROM LOGINTICKET WHERE state = ?" (text ticket_open ∷ [])

    unfoldable pub query_login_ticket : e.Db → List Str × Option Error
    unfolding listing
    query_login_ticket db =
        listing e.scan_ticket no_ticket ticket_line db "SELECT * FROM LOGINTICKET" []
