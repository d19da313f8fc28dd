-- ===== src/Handler/Admin/Tables.antt =====
-- listTable and showConfig of pkg/handler/admin.go: the texts that are written.
use gojump.Prelude.{
  ℕ, suc, Str, List, [], ◌∷◌, ◌++◌, map, ◌&&◌, String, Option, none, some, if◌then◌else◌, codes,
  str_eq, leb, ◌-◌,
}
use gojump.Prelude.Int.{ℤ, pos}
use gojump.Prelude.Format.{pad, itoa}
use gojump.Store.{Engine, Error}
use gojump.Core.Listings.{
  query_all_asset, query_asset_user_info, query_all_node, query_all_system_user, query_all_user,
  query_all_user_secret, query_user_log, query_pending_login_ticket, query_login_ticket,
}
use gojump.Common.Color.{char_new_line}

-- strings.ToUpper on ASCII texts.
to_upper : Str → Str
to_upper = map (λ c. if leb b'a' c && leb c b'z' then c - 32 else c)

module _ (e : Engine) (rune_count : Str → ℕ) (format_time : ℤ → Str)
    (config_text : Option Str) where
  -- The lines under the title, counted from `i`.
  numbered_lines : ℕ → List Str → List Str
  numbered_lines i [] = []
  numbered_lines i (v ∷ vs) =
      (pad rune_count 4 (itoa (pos i)) ++ (codes ". " ++ (v ++ char_new_line)))
      ∷ numbered_lines (suc i) vs

  -- An error is only logged.
  titled : String → List Str × Option Error → List Str
  unfolding numbered_lines
  titled title (rows, some x) = []
  titled title (rows, none) = (codes title ++ char_new_line) ∷ numbered_lines 1 rows

  show_config : List Str
  show_config = elim config_text [ none ↦ [] | some s ↦ s ∷ [] ]

  unfoldable pub list_table : e.Db → Str → List Str
  unfolding to_upper titled show_config
  list_table db name =
      let table = to_upper name in
      if str_eq table (codes "USERLOG")
      then titled "           Date          |    Type  |    User  |    Log"
          (query_user_log rune_count format_time e db)
      else if str_eq table (codes "TICKET")
      then titled
          "                 Ticket ID                | Application Date  |    User  |   Asset  |  SysUser |  Approver|   Approve Date    |   State"
          (query_login_ticket rune_count format_time e db)
      else if str_eq table (codes "PENDINGTICKET")
      then titled
          "                 Ticket ID                | Application Date  |    User  |   Asset  |  SysUser "
          (query_pending_login_ticket rune_count format_time e db)
      else if str_eq table (codes "USER")
      then titled
          "        ID|    User  |  Role|      Expire At    |OTP Level|Active|      Nodes     |    White list"
          (query_all_user rune_count format_time e db)
      else if str_eq table (codes "SYSUSER")
      then titled "        ID|    User  |Priority|Protocol|Password|Private Key|Comment"
          (query_all_system_user rune_count format_time e db)
      else if str_eq table (codes "ASSET")
      then titled
          "        ID|Asset Name| Hostname |                   IP                  |    OS    |Active| Platform |   Protocols   |Comment"
          (query_all_asset rune_count format_time e db)
      else if str_eq table (codes "NODE")
      then titled "        ID|   Name   |    Key   |      Asset IDs"
          (query_all_node rune_count format_time e db)
      else if str_eq table (codes "ASSETUSER")
      then titled
          "        ID|User ID|Asset ID|      Expire At    |Need Confirm|Enable VS Code|System User IDs"
          (query_asset_user_info rune_count format_time e db)
      else if str_eq table (codes "SECRET")
      then titled "   User ID|Password|Private Key|Authorized Keys"
          (query_all_user_secret rune_count format_time e db)
      else if str_eq table (codes "CONFIG")
      then show_config ++ (char_new_line ∷ [])
      else char_new_line ∷ []
