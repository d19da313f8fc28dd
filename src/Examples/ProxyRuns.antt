-- ===== src/Examples/ProxyRuns.antt =====
-- One connection, its bridge, and the cache of clients.
use gojump.Prelude.{
  ℕ, List, [], ◌∷◌, ◌++◌, true, false, none, some, inr, codes, str_eq, contains, if◌then◌else◌,
  ◌==◌, All, ◌≡◌, ◌↔◌, refl, In,
}
use gojump.Prelude.Int.{ℤ, pos, ltb_ℤ}
use gojump.Prelude.Dict.{Dict, lookup}
use gojump.Model.{Session}
use gojump.Model.Expire.{ExpireInfo, is_expired}
use gojump.Model.Protocol.{is_support_protocol, to_lower, supports}
use gojump.Store.{external, query_into}
use gojump.Core.Assets.{query_asset_user_expire, get_terminal_config}
use gojump.Proxy.Server.{
  Server, World, ConnectionOptions, new_server, check_required_auth, get_username_if_need,
  get_auth_password_if_need, check_reuse_ssh_client, ask_password,
}
use gojump.Proxy.Server.Flow.{bridged, panicked, check_login_confirm, serve, proxy}
use gojump.Proxy.Server.Flow.Confirmed.{IsConfirmed, confirm_iff}
use gojump.Proxy.Server.Credentials.{HasCredentials}
use gojump.Proxy.Server.Flow.Laws.{IsReached, proxy-bridged, serve_closes}
use gojump.Proxy.Server.Flow.Panic.{unread_expiry_panics}
use gojump.Proxy.Bridge.{
  State, Event, tick, srv_chan, user_chan, bridge, going, writing, turn, touch, unix, record_row,
}
use gojump.Proxy.Bridge.Record.{IsRecorded, has_rows, is_some_text}
use gojump.Proxy.Bridge.Recording.{state_of, bridge-IsRecorded}
use gojump.Proxy.Bridge.Forward.{from_server, from_user, bridge-forwards}
use gojump.Proxy.Bridge.Expiry.{is_over, bridge-expired}
use gojump.Srvconn.Clients.{get_client, select_client}
use gojump.Srvconn.Clients.Laws.{get_client-most}
use gojump.Examples.LoginRuns.{shared, dial, describe, nobody, no_cache}
use gojump.Examples.Memory.{Tables, memory, alice, web, root, tables, core, config, conf}

abbrev options : ConnectionOptions
options = record { user = alice; system_user = root; asset = web }

abbrev session_row : Session
session_row = record {
  id = codes "c1";
  user = codes "alice";
  asset = codes "web(10.0.0.1)";
  system_user = codes "root";
  login_from = [];
  remote_addr = [];
  protocol = codes "ssh";
  date_start = [];
  user_id = codes "u1";
  asset_id = codes "a1";
  system_user_id = codes "s1";
}

abbrev pub server : Server
server = record {
  id = codes "c1";
  conn_opts = options;
  terminal_conf = conf;
  expire_info = some (record { expire_at = pos 500 });
  session_info = session_row;
  cache_ssh_connection = none;
}

proxy_example :
    ((proxy memory dial describe nobody config no_cache shared server [] none
        (pos 400)
        (codes "t9")
        []
        []
        []).1
      ≡ bridged)
    ↔ ((s1 : Server) × (info : ExpireInfo) × HasCredentials config no_cache server [] none s1
        × (server.expire_info ≡ some info)
        × (is_expired info (pos 400) ≡ false)
        × IsConfirmed memory tables s1 (codes "t9") [] []
        × IsReached dial s1)
proxy_example =
    proxy-bridged memory dial describe nobody config no_cache shared server [] none (pos 400)
      (codes "t9") [] [] []

confirm_example :
    ((check_login_confirm memory shared server (codes "t9") [] []).1 ≡ some true)
    ↔ IsConfirmed memory tables server (codes "t9") [] []
confirm_example = confirm_iff memory shared server (codes "t9") [] []

serve_example :
    let w' = (serve memory dial describe nobody shared server [] []).0 in
    (lookup (codes "c1") w'.sess_manager ≡ none) × (lookup (codes "c1") w'.core.session ≡ none)
serve_example = serve_closes memory dial describe nobody shared server [] [] refl

abbrev unread : World Tables
unread = record {
  core = record core { db = record tables { expire_at = none } };
  sess_manager = [];
}

abbrev unread_server : Server
unread_server = record server { expire_info = none }

unread_made : new_server memory unread.core.db options (codes "c1") [] [] ≡ inr unread_server
unfolding new_server query_asset_user_expire get_terminal_config str_eq query_into
    is_support_protocol supports to_lower contains
unread_made = refl

unread_query :
    (query_asset_user_expire memory unread.core.db (codes "u1") (codes "a1")).1 ≡ some (external 2)
unfolding query_asset_user_expire query_into str_eq
unread_query = refl

unread_auth : check_required_auth config no_cache unread_server [] none ≡ some unread_server
unfolding check_required_auth get_username_if_need get_auth_password_if_need check_reuse_ssh_client
    ask_password str_eq
unread_auth = refl

unread_example :
    proxy memory dial describe nobody config no_cache unread unread_server [] none
      (pos 400)
      (codes "t9")
      []
      []
      []
    ≡ (unread, panicked)
unread_example =
    unread_expiry_panics memory dial describe nobody config no_cache unread options (codes "c1") []
      [] [] unread_server unread_server (external 2) [] none (pos 400) (codes "t9") [] []
      unread_made unread_query unread_auth

abbrev fresh : State
fresh = record {
  last_active_time = 0;
  to_user = [];
  to_server = [];
  windows = [];
  keep_alives = 0;
  recorder = writing false [];
}

abbrev until_500 : ExpireInfo
until_500 = record { expire_at = pos 500 }

abbrev traffic : List (Event × ℕ)
traffic = (user_chan (some (codes "ls")), 1) ∷ (srv_chan (some (codes "a b")), 2) ∷ []

fresh-IsRecorded : IsRecorded fresh.recorder fresh.to_user
unfolding IsRecorded has_rows is_some_text
fresh-IsRecorded = (refl, refl)

IsRecorded-example :
    let t = state_of (bridge (pos 30) until_500 fresh traffic) in IsRecorded t.recorder t.to_user
IsRecorded-example = bridge-IsRecorded (pos 30) until_500 traffic fresh fresh-IsRecorded

abbrev after_traffic : State
after_traffic = record fresh {
  last_active_time = 2;
  to_user = codes "a b" ∷ [];
  to_server = codes "ls" ∷ [];
  recorder = writing true (codes "a b" ∷ []);
}

traffic_stands : bridge (pos 30) until_500 fresh traffic ≡ going after_traffic
unfolding bridge turn touch record_row
traffic_stands = refl

forwards_example :
    (after_traffic.to_user ≡ fresh.to_user ++ from_server traffic)
    × (after_traffic.to_server ≡ fresh.to_server ++ from_user traffic)
forwards_example = bridge-forwards (pos 30) until_500 traffic fresh after_traffic traffic_stands

expired_by_then : is_expired until_500 (unix 600000000000) ≡ true
unfolding is_expired
expired_by_then = refl

expired_example :
    is_over (bridge (pos 30) until_500 fresh (traffic ++ ((tick, 600000000000) ∷ []))) ≡ true
expired_example = bridge-expired (pos 30) until_500 traffic fresh 600000000000 expired_by_then

-- Client 1 has two sessions, client 2 none.
abbrev refs : ℕ → ℤ
refs n = if n == 1 then pos 2 else pos 0

most_selected : get_client refs (1 ∷ 2 ∷ []) ≡ some 1
unfolding get_client select_client
most_selected = refl

most_example : In {A = ℕ} 1 (1 ∷ 2 ∷ []) × All (λ d. ltb_ℤ (refs 1) (refs d) ≡ false) (1 ∷ 2 ∷ [])
most_example = get_client-most refs (1 ∷ 2 ∷ []) 1 most_selected

abbrev cached : Dict (List ℕ)
cached = (codes "k", 1 ∷ 2 ∷ []) ∷ []
