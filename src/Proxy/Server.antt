-- ===== src/Proxy/Server.antt =====
-- pkg/proxy/server.go, loginConfirm.go and the session manager of switchManager.go. Outside the
-- program are the lines that the user types (the end of the list is the reader's error). The dial
-- and the cached SSH clients are arguments here (`connect`, `cache`), with their code in
-- Proxy.Connect, and so is what other connections do to the shared state while the bridge runs
-- (`during`). Text that is only shown to the user is not modelled.
pub mod Credentials
pub mod Flow
use gojump.Prelude.{
  ℕ, suc, Str, List, [], ◌∷◌, ◌++◌, Bool, true, false, not, ◌&&◌, Option, none, some, ◌⊎◌, inl, inr,
  if◌then◌else◌, codes, str_eq, length, ◌==◌,
}
use gojump.Prelude.Int.{ℤ}
use gojump.Prelude.Dict.{Dict, insert, delete}
use gojump.Prelude.Atoi.{trim_space}
use gojump.Model.{Asset, User, SystemUser, Session, TerminalConfig}
use gojump.Model.Expire.{ExpireInfo, is_expired}
use gojump.Model.Protocol.{is_support_protocol}
use gojump.Store.{Engine, Error, unsupported_protocol, inconsistent_protocol}
use gojump.Core.{Core, Config}
use gojump.Core.Assets.{get_terminal_config, query_asset_user_expire}
use gojump.Core.Sessions.{create_session, session_success, session_failed, session_disconnect}
use gojump.Auth.Confirm.{
  Status, approve, reject, cancel, LoginConfirmService, Event, check_is_need_login_confirm,
  wait_confirm_finish,
}
use gojump.Srvconn.Clients.{make_reuse_ssh_client_key}

pub record ConnectionOptions : Type 0 where
  pub user : User
  pub system_user : SystemUser
  pub asset : Asset

pub record Server : Type 0 where
  pub id : Str
  pub conn_opts : ConnectionOptions
  pub terminal_conf : TerminalConfig
  pub expire_info : Option ExpireInfo
  pub session_info : Session
  pub cache_ssh_connection : Option ℕ

pub record SwitchSession : Type 0 where
  pub id : Str
  pub max_idle_time : ℤ

-- The state that the connections share.
pub record World (Db : Type 0) : Type 0 where
  pub core : Core Db
  pub sess_manager : Dict SwitchSession

abbrev pub protocol_ssh : Str
protocol_ssh = codes "ssh"

asset_string : Asset → Str
asset_string a = a.hostname ++ (codes "(" ++ (a.ip ++ codes ")"))

-- NewServer. The session gets its start from CreateSessionCallback. An error of the query for the expiry is only logged, and leaves a nil pointer.
unfoldable pub new_server :
    (e : Engine)
    → e.Db
    → ConnectionOptions
    → (fresh_id login_from remote_addr : Str) → Error ⊎ Server
unfolding asset_string
new_server e db opts fresh_id login_from remote_addr =
    if not (str_eq opts.system_user.protocol protocol_ssh)
    then inl unsupported_protocol
    else (let (conf, err) = get_terminal_config e db in
        let info = (query_asset_user_expire e db opts.user.id opts.asset.id).0 in
        elim err [
          | some x ↦ inl x
          | none ↦
              if not (is_support_protocol opts.asset opts.system_user.protocol)
              then inl inconsistent_protocol
              else inr (record {
                id = fresh_id;
                conn_opts = opts;
                terminal_conf = conf;
                expire_info = info;
                session_info = record {
                  id = fresh_id;
                  user = opts.user.username;
                  asset = asset_string opts.asset;
                  system_user = opts.system_user.username;
                  login_from = login_from;
                  remote_addr = remote_addr;
                  protocol = opts.system_user.protocol;
                  date_start = [];
                  user_id = opts.user.id;
                  asset_id = opts.asset.id;
                  system_user_id = opts.system_user.id;
                };
                cache_ssh_connection = none;
              })
        ])

-- The loop of getUsernameIfNeed: the first line that is not blank.
pub read_username : List Str → Option Str
read_username [] = none
read_username (line ∷ lines) =
    let rest = read_username lines in
    let username = trim_space line in if str_eq username [] then rest else some username

unfoldable pub with_system_user : Server → SystemUser → Server
with_system_user s u =
    let opts : ConnectionOptions = record {
      user = s.conn_opts.user;
      system_user = u;
      asset = s.conn_opts.asset;
    } in
    record s { conn_opts = opts }

unfoldable pub get_username_if_need : Server → List Str → Option Server
unfolding read_username with_system_user
get_username_if_need s lines =
    let u = s.conn_opts.system_user in
    if str_eq u.username []
    then elim (read_username lines) [
      | none ↦ none
      | some name ↦ some (with_system_user s (record u { username = name }))
    ]
    else some s

-- `password` is the line read without echo, `none` the reader's error.
unfoldable pub get_auth_password_if_need : Server → Option Str → Option Server
unfolding with_system_user
get_auth_password_if_need s password =
    let u = s.conn_opts.system_user in
    if str_eq u.password []
    then elim password [
      | none ↦ none
      | some line ↦ some (with_system_user s (record u { password = line }))
    ]
    else some s

unfoldable pub check_reuse_ssh_client : Config → Server → Bool
check_reuse_ssh_client cfg s =
    cfg.reuse_connection
    && (str_eq s.conn_opts.asset.platform (codes "Linux")
        && str_eq s.conn_opts.system_user.protocol protocol_ssh)

module _ (cfg : Config) (cache : Str → Option ℕ) where
  unfoldable pub get_cache_ssh_conn : Server → Option ℕ
  get_cache_ssh_conn s = cache (
      make_reuse_ssh_client_key s.conn_opts.user.id s.conn_opts.asset.id s.conn_opts.system_user.id
        s.conn_opts.asset.ip s.conn_opts.system_user.username)

  unfoldable pub ask_password : Server → Option Str → Option Server
  ask_password s password =
      if str_eq s.conn_opts.system_user.private_key []
      then get_auth_password_if_need s password
      else some s

  -- The server with its credentials, or `none` for an error.
  unfoldable pub check_required_auth : Server → List Str → Option Str → Option Server
  unfolding ask_password
  check_required_auth s lines password =
      if str_eq s.conn_opts.system_user.protocol protocol_ssh
      then elim (get_username_if_need s lines) [
        | none ↦ none
        | some s1 ↦
            if check_reuse_ssh_client cfg s1
            then elim (get_cache_ssh_conn s1) [
              | some conn ↦ some (record s1 { cache_ssh_connection = some conn })
              | none ↦ ask_password s1 password
            ]
            else ask_password s1 password
      ]
      else none

-- AddCommonSwitch and RemoveCommonSwitch.
unfoldable pub add_common_switch : {Db : Type 0} → World Db → SwitchSession → World Db
add_common_switch w sw = record w { sess_manager = insert sw.id sw w.sess_manager }

unfoldable pub remove_common_switch : {Db : Type 0} → World Db → SwitchSession → World Db
remove_common_switch w sw = record w { sess_manager = delete sw.id w.sess_manager }
