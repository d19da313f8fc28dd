-- ===== src/Server/Vscode.antt =====
-- pkg/server/vscode.go, and proxyVscode, proxyVscodeShell and DirectTCPIPChannelHandler of
-- sshHandler.go. Outside the program are the dial of the asset (`dial`), the outcome of the calls on
-- its new session (`shell`), what other connections do to the server while the shell is served
-- (`during`), and the events of the loop; the copying between the two ends is not modelled.
-- The identifier of a connection is taken to have the ten bytes that the log lines cut from it.
pub mod Registry
pub mod Laws
use gojump.Prelude.{
  ℕ, Str, List, [], ◌∷◌, ◌++◌, Bool, true, false, not, Option, none, some, ◌⊎◌, inl, inr,
  if◌then◌else◌, codes,
}
use gojump.Prelude.Int.{ℤ}
use gojump.Prelude.Dict.{Dict, lookup, insert, delete}
use gojump.Model.{Asset, User, SystemUser}
use gojump.Model.Expire.{ExpireInfo, is_expired}
use gojump.Store.{Engine, Error}
use gojump.Core.{Core}
use gojump.Core.Sessions.{insert_log}
use gojump.Core.Assets.{
  query_direct_login_info, query_asset_user_expire, query_asset_user_vscode_perm,
}
use gojump.Srvconn.Ssh.{SshClientOptions, client_string}

-- A client stands for its options and the number that tells it from others.
pub record VscodeReq : Type 0 where
  pub req_id : Str
  pub user : User
  pub client : ℕ
  pub client_cfg : SshClientOptions
  pub expire_info : ExpireInfo

pub record Clients (Db : Type 0) : Type 0 where
  pub core : Core Db
  pub vscode_clients : Dict VscodeReq

-- What the loop of proxyVscodeShell selects: the end of the session, eight hours, a minute's tick.
pub data Event : Type 0 where
  done timeout : Event
  tick : ℤ → Event

-- How it ends; `serving` when none of the events so far ended it.
pub data LoopEnd : Type 0 where
  session_done timed_out expired serving : LoopEnd

unfoldable pub watch : ExpireInfo → List Event → LoopEnd
watch info [] = serving
watch info (done ∷ events) = session_done
watch info (timeout ∷ events) = timed_out
watch info (tick now ∷ events) =
    let rest = watch info events in if is_expired info now then expired else rest

-- How proxyVscode ends. `no_ctx_id` is its own error.
pub data VscodeEnd : Type 0 where
  failed : Error → VscodeEnd
  no_ctx_id no_permission : VscodeEnd
  ended : LoopEnd → VscodeEnd

module _ (e : Engine) where
  unfoldable pub get_vscode_req : Clients e.Db → Str → Option VscodeReq
  get_vscode_req s req_id = lookup req_id s.vscode_clients

  unfoldable pub add_vscode_req : Clients e.Db → VscodeReq → Str → Clients e.Db
  add_vscode_req s req date = record {
    core =
        insert_log e s.core (codes "vscode") req.user.username
          (codes "vscode connect to " ++ (client_string req.client_cfg ++ codes " successfully"))
          date;
    vscode_clients = insert req.req_id req s.vscode_clients;
  }

  unfoldable pub delete_vscode_req : Clients e.Db → VscodeReq → Str → Clients e.Db
  delete_vscode_req s req date = record {
    core =
        insert_log e s.core (codes "vscode") req.user.username
          (codes "vscode disconnect to " ++ client_string req.client_cfg) date;
    vscode_clients = delete req.req_id s.vscode_clients;
  }

  module _ (dial : Asset → SystemUser → Error ⊎ (ℕ × SshClientOptions)) (shell : Option Error)
      (during : Clients e.Db → Clients e.Db) where
    -- `shell`: the first error of AcquireSession, StdoutPipe, StdinPipe and Shell.
    unfoldable pub proxy_vscode_shell :
        Clients e.Db → VscodeReq → List Event → (date later : Str) → Clients e.Db × VscodeEnd
    unfolding add_vscode_req delete_vscode_req
    proxy_vscode_shell s req events date later = elim shell [
      | some err ↦ (s, failed err)
      | none ↦ elim (watch req.expire_info events) [
        | serving ↦ (during (add_vscode_req s req date), ended serving)
        | session_done ↦
            (delete_vscode_req (during (add_vscode_req s req date)) req later, ended session_done)
        | timed_out ↦
            (delete_vscode_req (during (add_vscode_req s req date)) req later, ended timed_out)
        | expired ↦
            (delete_vscode_req (during (add_vscode_req s req date)) req later, ended expired)
      ]
    ]

    -- The part behind the queries; a nil expiry comes with an error and is not reached.
    unfoldable pub serve_vscode :
        Clients e.Db
        → (ctx_id : Str) → User
        → Asset
        → SystemUser
        → ExpireInfo
        → List Event
        → (date later : Str) → Clients e.Db × VscodeEnd
    unfolding proxy_vscode_shell
    serve_vscode s ctx_id user asset sys_user info events date later = elim (dial asset sys_user) [
      | inl err ↦ (s, failed err)
      | inr c ↦
          proxy_vscode_shell s
            (record {
              req_id = ctx_id;
              user = user;
              client = c.0;
              client_cfg = c.1;
              expire_info = info;
            })
            events date later
    ]

    unfoldable pub proxy_vscode :
        Clients e.Db
        → Option Str
        → User
        → Dict Str
        → List Event
        → (date later : Str) → Clients e.Db × VscodeEnd
    unfolding serve_vscode
    proxy_vscode s ctx_id user direct_login events date later =
        let (asset, sys_user, err) = query_direct_login_info e s.core.db user.id direct_login in
        let (info, err2) = query_asset_user_expire e s.core.db user.id asset.id in
        let (perm, err3) = query_asset_user_vscode_perm e s.core.db user.id asset.id in
        elim err [
          | some x ↦ (s, failed x)
          | none ↦ elim ctx_id [
            | none ↦ (s, no_ctx_id)
            | some id ↦ elim err2 [
              | some x ↦ (s, failed x)
              | none ↦ elim err3 [
                | some x ↦ (s, failed x)
                | none ↦ if not perm then (s, no_permission) else elim info [
                  | none ↦ (s, no_permission)
                  | some i ↦ serve_vscode s id user asset sys_user i events date later
                ]
              ]
            ]
          ]
        ]

-- What becomes of a "direct-tcpip" channel.
pub data Channel : Type 0 where
  parse_error prohibited : Channel
  connection_failed : Error → Channel
  forwarded : VscodeReq → Channel

module _ (e : Engine) (dial_via : ℕ → Str → Option Error) (accept : Option Error) where
  unfoldable pub direct_tcpip_channel_handler : Clients e.Db → Option Str → Str → Channel
  unfolding get_vscode_req
  direct_tcpip_channel_handler s ctx_id dest_addr = elim ctx_id [
    | none ↦ prohibited
    | some id ↦ elim (get_vscode_req e s id) [
      | none ↦ prohibited
      | some req ↦ elim (dial_via req.client dest_addr) [
        | some err ↦ connection_failed err
        | none ↦ elim accept [ some err ↦ connection_failed err | none ↦ forwarded req ]
      ]
    ]
  ]

  -- The channel handler of initSSHServer; `dest` is the address in the request, `none` where that
  -- does not parse.
  unfoldable pub direct_tcpip : Bool → Clients e.Db → Option Str → Option Str → Channel
  unfolding direct_tcpip_channel_handler
  direct_tcpip enable_local_port_forward s ctx_id dest = elim dest [
    | none ↦ parse_error
    | some addr ↦
        if not enable_local_port_forward
        then prohibited
        else direct_tcpip_channel_handler s ctx_id addr
  ]
