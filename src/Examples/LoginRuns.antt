-- ===== src/Examples/LoginRuns.antt =====
-- Logins of alice to the asset "web", from the table, by name and in VS Code.
use gojump.Prelude.{
  ◌++◌, ℕ, Str, List, [], ◌∷◌, Option, none, some, ◌⊎◌, inr, codes, str_eq, ◌≡◌, refl, In, contains,
}
use gojump.Prelude.Int.{pos}
use gojump.Prelude.Dict.{Dict, lookup}
use gojump.Store.{Error, query_into, query_structs}
use gojump.Core.Assets.{
  Item, to_item, get_all_user_perms_assets, get_asset_by_name, query_direct_login_info,
  get_system_users_by_user_id_and_asset_id, or_empty, get_system_users, get_terminal_config,
  query_asset_user_expire, get_nodes, get_assets, get_asset_by_id,
}
use gojump.Model.Protocol.{is_support_protocol, supports, to_lower}
use gojump.Auth.Confirm.{check_is_need_login_confirm}
use gojump.Core.Tickets.{check_if_need_asset_login_confirm, needs_confirm}
use gojump.Model.Expire.{is_expired}
use gojump.Handler.Select.{
  has_just_one_asset, set_all_local_data, step, search_or_proxy, retrieve, get_page_size,
}
use gojump.Prelude.Atoi.{atoi}
use gojump.Handler.Search.{search_local_asset}
use gojump.Handler.Login.{Visit, served, direct_proxy, select_proxy, choose_system_user}
use gojump.Handler.Login.Laws.{IsPermitted, Opened, direct_proxy-IsPermitted}
use gojump.Handler.Session.{Login, Entry, loaded, logged_in, interactive, serve_all}
use gojump.Handler.Session.Laws.{session_permitted}
use gojump.Proxy.Server.{
  Server, World, new_server, check_required_auth, get_username_if_need, check_reuse_ssh_client,
  get_auth_password_if_need, ask_password,
}
use gojump.Model.{Node}
use gojump.Proxy.Server.Flow.{Shared, bridged, proxy, check_login_confirm, get_server_conn, serve}
use gojump.Examples.Memory.{Tables, memory, alice, web, core, config, conf}

abbrev pub shared : World Tables
shared = record { core = core; sess_manager = [] }

abbrev pub dial : Server → Error ⊎ ℕ
dial s = inr 7

abbrev pub describe : Error → Str
describe x = codes "error"

abbrev pub nobody : World Tables → World Tables
nobody w = w

abbrev pub no_cache : Str → Option ℕ
no_cache key = none

abbrev pub visit : Visit Tables
visit = record {
  choices = [];
  username_lines = [];
  password = none;
  now = pos 400;
  server_id = codes "c1";
  ticket_id = codes "t9";
  login_from = [];
  remote_addr = [];
  date = [];
  later = [];
  events = [];
}

abbrev pub rows_as_they_are : List Item → List Item
rows_as_they_are l = l

abbrev pub nodes_as_they_are : List Node → List Node
nodes_as_they_are l = l

rows_stay : (l : List Item) (v : Item) → In v l → In v l
rows_stay l v i = i

abbrev login : Login (World Tables) Tables
login = record { row = to_item web; at = shared; visit = visit; ended = served bridged }

login_made :
    (interactive memory rows_as_they_are nodes_as_they_are dial describe nobody config no_cache
      alice shared conf 24 visit []).1
    ≡ (loaded shared ∷ []) ++ (logged_in login ∷ [])
unfolding interactive has_just_one_asset set_all_local_data get_all_user_perms_assets get_nodes
    get_assets serve_all step search_or_proxy atoi retrieve get_page_size search_local_asset
    select_proxy to_item get_asset_by_id choose_system_user query_into str_eq lookup
    get_system_users_by_user_id_and_asset_id get_system_users query_structs new_server
    get_terminal_config is_support_protocol contains proxy check_required_auth get_username_if_need
    check_reuse_ssh_client get_auth_password_if_need check_is_need_login_confirm
    query_asset_user_expire check_if_need_asset_login_confirm needs_confirm is_expired supports
    to_lower check_login_confirm get_server_conn serve ask_password
login_made = refl

session_permitted_example :
    ((w0 : Shared memory) × In {A = Entry (Shared memory) Tables} (loaded w0) (loaded shared ∷ [])
      × In login.row (get_all_user_perms_assets memory w0.core.db alice.node_ids).0)
    × (target_id : Str) × (lookup (codes "id") login.row ≡ some target_id)
    × Opened memory dial describe nobody config no_cache login.at alice target_id login.visit
session_permitted_example =
    session_permitted memory rows_as_they_are nodes_as_they_are rows_stay dial describe nobody
      config no_cache alice shared conf 24 visit [] (loaded shared ∷ []) [] login login_made refl

abbrev pub direct_login : Dict Str
direct_login = (codes "asset", codes "web") ∷ (codes "sysuser", codes "root") ∷ []

direct_made :
    (direct_proxy memory dial describe nobody config no_cache shared alice direct_login visit).1
    ≡ served bridged
unfolding direct_proxy query_direct_login_info get_asset_by_name query_into str_eq lookup
    get_system_users_by_user_id_and_asset_id get_system_users query_structs new_server
    get_terminal_config is_support_protocol contains proxy check_required_auth get_username_if_need
    check_reuse_ssh_client get_auth_password_if_need check_is_need_login_confirm
    query_asset_user_expire check_if_need_asset_login_confirm needs_confirm is_expired supports
    to_lower check_login_confirm get_server_conn serve ask_password
direct_made = refl

direct_example :
    let (asset, u, err) = query_direct_login_info memory shared.core.db alice.id direct_login in
    (get_asset_by_name memory shared.core.db (or_empty (lookup (codes "asset") direct_login))
      ≡ (asset, none))
    × (u.username ≡ or_empty (lookup (codes "sysuser") direct_login))
    × In u (get_system_users_by_user_id_and_asset_id memory shared.core.db alice.id asset.id).0
    × IsPermitted memory shared (record { user = alice; system_user = u; asset = asset }) visit
direct_example =
    direct_proxy-IsPermitted memory dial describe nobody config no_cache shared alice direct_login
      visit direct_made
