-- ===== src/Proxy/Server/Flow.antt =====
-- Server.Proxy of pkg/proxy/server.go, with checkLoginConfirm, getServerConn and the deferred calls.
pub mod Auth
pub mod Confirmed
pub mod Laws
pub mod Panic
use gojump.Prelude.{
  ℕ, Str, List, [], ◌∷◌, Bool, true, false, not, Option, none, some, ◌⊎◌, inl, inr, if◌then◌else◌,
  codes, str_eq, length, ◌==◌,
}
use gojump.Prelude.Int.{ℤ}
use gojump.Prelude.Dict.{Dict, insert, delete}
use gojump.Model.{Session}
use gojump.Model.Expire.{ExpireInfo, is_expired}
use gojump.Store.{Engine, Error, inconsistent_protocol}
use gojump.Core.{Core, Config}
use gojump.Core.Sessions.{create_session, session_success, session_failed, session_disconnect}
use gojump.Auth.Confirm.{
  Status, approve, reject, cancel, LoginConfirmService, Event, check_is_need_login_confirm,
  wait_confirm_finish,
}
use gojump.Proxy.Server.{
  Server, SwitchSession, World, protocol_ssh, check_required_auth, add_common_switch,
  remove_common_switch,
}

-- How a call of Proxy ends. `waiting` is a confirmation that no event has settled yet; `panicked` is
-- a run-time panic, after the deferred calls.
pub data Outcome : Type 0 where
  no_auth panicked expired unconfirmed waiting bridged : Outcome
  failed : Error → Outcome

-- The answers of waitConfirmFinish that let the login through.
pub approved : Status → Bool
approved approve = true
approved reject = false
approved cancel = false

module _ (e : Engine) where
  abbrev pub Shared : Type 0
  Shared = World e.Db

  -- validateLoginConfirm as checkLoginConfirm calls it; `none` while no event has settled the wait.
  -- The database it leaves is this connection's: what others do to it comes with the events.
  unfoldable pub check_login_confirm :
      Shared → Server → (fresh_id date : Str) → List (Event e.Db) → Shared × Option Bool
  unfolding approved
  check_login_confirm w s fresh_id date events =
      let srv : LoginConfirmService = record {
        user_id = s.conn_opts.user.id;
        username = s.conn_opts.user.username;
        system_username = s.conn_opts.system_user.username;
        asset_id = s.conn_opts.asset.id;
        asset_name = s.conn_opts.asset.name;
        reviewers = [];
        approver = [];
        ticket_id = [];
      } in
      let (c, srv1, need, err) = check_is_need_login_confirm e w.core srv fresh_id date in
      let answer = wait_confirm_finish e srv1 events in
      elim err [
        | some x ↦ (record w { core = c }, some false)
        | none ↦ if not need then (record w { core = c }, some true) else elim answer [
          | none ↦ (record w { core = c }, none)
          | some r ↦ elim r.2 [
            | none ↦ (record w { core = c }, some (approved r.0))
            | some db ↦ (record w { core = record c { db = db } }, some (approved r.0))
          ]
        ]
      ]

  module _ (connect : Server → Error ⊎ ℕ) (describe : Error → Str) (during : Shared → Shared) where
    unfoldable pub get_server_conn : Server → Error ⊎ ℕ
    get_server_conn s = elim s.cache_ssh_connection [
      | some conn ↦ inr conn
      | none ↦
          if str_eq s.conn_opts.system_user.protocol protocol_ssh
          then connect s
          else inl inconsistent_protocol
    ]

    -- sendConnectErrorMsg slices `password[:2]`, which panics on a password of one byte.
    unfoldable pub send_connect_error_msg : Server → Bool
    send_connect_error_msg s = length s.conn_opts.system_user.password == 1

    abbrev pub switch_of : Server → SwitchSession
    switch_of s = record { id = s.id; max_idle_time = s.terminal_conf.max_idle_time }

    -- The deferred calls, last first.
    unfoldable pub close_session : Shared → Server → Str → Shared
    close_session w s date =
        let (c, err) = session_disconnect e w.core s.session_info.id date in
        remove_common_switch (record w { core = c }) (switch_of s)

    -- The calls that make the session known to the rest of the program.
    unfoldable pub open_session : Shared → Server → Str → Shared
    open_session w s date =
        add_common_switch
          (record w {
            core = create_session e w.core (record s.session_info { date_start = date });
          })
          (switch_of s)

    -- From CreateSessionCallback on, at the times `date` and, after the bridge, `later`.
    unfoldable pub serve : Shared → Server → (date later : Str) → Shared × Outcome
    serve w s date later =
        let w1 = open_session w s date in
        elim (get_server_conn s) [
          | inl err ↦
              if send_connect_error_msg s
              then (close_session w1 s date, panicked)
              else (let (c, err2) =
                    session_failed e w1.core s.session_info.id (describe err) date in
                  (close_session (record w1 { core = c }) s date, failed err))
          | inr conn ↦
              let (c, err2) = session_success e w1.core s.session_info.id date in
              (close_session (during (record w1 { core = c })) s later, bridged)
        ]

    module _ (cfg : Config) (cache : Str → Option ℕ) where
      unfoldable pub proxy :
          Shared
          → Server
          → List Str
          → Option Str
          → (now : ℤ) → (fresh_id date later : Str) → List (Event e.Db)
          → Shared × Outcome
      proxy w s lines password now fresh_id date later events =
          elim (check_required_auth cfg cache s lines password) [
            | none ↦ (w, no_auth)
            | some s1 ↦ elim s1.expire_info [
              | none ↦ (w, panicked)
              | some info ↦
                  if is_expired info now
                  then (w, expired)
                  else (let (w1, ok) = check_login_confirm w s1 fresh_id date events in
                      elim ok [
                        | none ↦ (w1, waiting)
                        | some false ↦ (w1, unconfirmed)
                        | some true ↦ serve w1 s1 date later
                      ])
            ]
          ]
