-- ===== src/Examples/ServerRuns.antt =====
-- Connections of alice at the server, with and without a terminal.
use gojump.Prelude.{
  ℕ, Str, List, [], ◌∷◌, true, Option, none, some, ◌⊎◌, inr, codes, str_eq, if◌then◌else◌, ◌≡◌, ◌≢◌,
  ◌↔◌, refl,
}
use gojump.Prelude.Int.{pos}
use gojump.Model.{Asset, SystemUser}
use gojump.Prelude.Dict.{lookup}
use gojump.Model.Expire.{is_expired}
use gojump.Store.{Error, query_into, query_structs}
use gojump.Core.Assets.{
  query_direct_login_info, get_asset_by_name, get_system_users_by_user_id_and_asset_id,
  get_system_users, query_asset_user_expire, query_asset_user_vscode_perm,
}
use gojump.Srvconn.Ssh.{SshClientOptions, default_options}
use gojump.Proxy.Server.{World}
use gojump.Server.Vscode.{
  VscodeReq, Clients, Event, tick, expired, serving, watch, ended, get_vscode_req, add_vscode_req,
  delete_vscode_req, proxy_vscode, direct_tcpip, forwarded,
}
use gojump.Server.Vscode.Registry.{shared_entry_lost}
use gojump.Server.Vscode.Laws.{IsGranted, forwarded_iff, vscode-IsGranted, vscode_unregistered}
use gojump.Server.Session.{ServerState, Connection, session_handler}
use gojump.Server.Session.Laws.{IsEntitled, session_handler-IsEntitled}
use gojump.Examples.LoginRuns.{
  shared, dial, describe, nobody, no_cache, visit, rows_as_they_are, nodes_as_they_are,
  direct_login,
}
use gojump.Examples.Memory.{Tables, memory, alice, core, config, conf, count_bytes, show_time}

abbrev clients : Clients Tables
clients = record { core = core; vscode_clients = [] }

abbrev reach : Asset → SystemUser → Error ⊎ (ℕ × SshClientOptions)
reach asset u = inr (5, default_options)

abbrev alone : Clients Tables → Clients Tables
alone s = s

-- The permission ends at 500.
abbrev events : List Event
events = tick (pos 400) ∷ tick (pos 600) ∷ []

vscode_runs :
    (proxy_vscode memory reach none alone clients
      (some (codes "k1"))
      alice
      direct_login
      events
      []
      []).1
    ≡ ended expired
unfolding proxy_vscode query_direct_login_info get_asset_by_name query_into str_eq lookup
    get_system_users_by_user_id_and_asset_id get_system_users query_structs query_asset_user_expire
    query_asset_user_vscode_perm watch is_expired
vscode_runs = refl

vscode_example : IsGranted memory reach none alone clients alice direct_login
vscode_example =
    vscode-IsGranted memory reach none alone clients (some (codes "k1")) alice direct_login events
      [] [] expired vscode_runs

expired-ne-serving : expired ≢ serving
expired-ne-serving h = cc

unregistered_example :
    get_vscode_req memory
      (proxy_vscode memory reach none alone clients
        (some (codes "k1"))
        alice
        direct_login
        events
        []
        []).0
      (codes "k1")
    ≡ none
unregistered_example =
    vscode_unregistered memory reach none alone clients (codes "k1") alice direct_login events [] []
      expired vscode_runs expired-ne-serving

abbrev request : VscodeReq
request = record {
  req_id = codes "k1";
  user = alice;
  client = 5;
  client_cfg = default_options;
  expire_info = record { expire_at = pos 500 };
}

abbrev second_request : VscodeReq
second_request = record request { client = 6 }

abbrev accepted : Option Error
accepted = none

abbrev open_channel : ℕ → Str → Option Error
open_channel client addr = none

forwarded_example :
    (direct_tcpip memory open_channel accepted true
        (add_vscode_req memory clients request [])
        (some (codes "k1"))
        (some (codes "10.0.0.1:80"))
      ≡ forwarded request)
    ↔ ((id : Str) × (addr : Str) × (true ≡ true)
        × (some (codes "k1") ≡ some id)
        × (some (codes "10.0.0.1:80") ≡ some addr)
        × (get_vscode_req memory (add_vscode_req memory clients request []) id ≡ some request)
        × (open_channel request.client addr ≡ none)
        × (accepted ≡ none))
forwarded_example =
    forwarded_iff memory open_channel accepted true (add_vscode_req memory clients request [])
      (some (codes "k1")) (some (codes "10.0.0.1:80")) request

shared_entry_example :
    get_vscode_req memory
      (delete_vscode_req memory
        (add_vscode_req memory (add_vscode_req memory clients request []) second_request [])
        request
        [])
      (codes "k1")
    ≡ (if str_eq (codes "k1") (codes "k1")
        then none
        else get_vscode_req memory clients (codes "k1"))
shared_entry_example =
    shared_entry_lost memory clients request second_request [] [] [] (codes "k1") refl

abbrev state : ServerState (World Tables)
state = record { shared = shared; vscode_clients = []; terminal_conf = conf }

abbrev connection : Connection (World Tables) Tables
connection = record {
  context_user = some alice;
  direct_login = some direct_login;
  ctx_id = some (codes "k1");
  is_pty = true;
  session_user = codes "alice";
  height = 24;
  visit = visit;
  lines = [];
  admin_lines = [];
  events = [];
  date = [];
  later = [];
}

session_handler_example :
    IsEntitled config connection
      (session_handler memory rows_as_they_are nodes_as_they_are dial describe nobody config
        no_cache count_bytes show_time none reach none alone state connection).1
session_handler_example =
    session_handler-IsEntitled memory rows_as_they_are nodes_as_they_are dial describe nobody config
      no_cache count_bytes show_time none reach none alone state connection
