-- ===== src/Server/Session.antt =====
-- SessionHandler of pkg/server/sshHandler.go, which hands an authenticated connection to one of the
-- clients, and the terminal configuration of server.go. The clients' own surroundings are the
-- parameters of their modules.
pub mod Laws
use gojump.Prelude.{
  ℕ, Str, List, [], Bool, true, false, not, Option, none, some, ◌⊎◌, if◌then◌else◌, codes, str_eq,
}
use gojump.Prelude.Int.{ℤ}
use gojump.Prelude.Dict.{Dict}
use gojump.Model.{Node, Asset, User, SystemUser, TerminalConfig}
use gojump.Store.{Engine, Error}
use gojump.Core.{Config}
use gojump.Core.Assets.{Item, get_terminal_config}
use gojump.Core.Sessions.{interactive_log}
use gojump.Srvconn.Ssh.{SshClientOptions}
use gojump.Proxy.Server.{Server}
use gojump.Proxy.Server.Flow.{Shared}
use gojump.Handler.Login.{Visit, Ended, direct_proxy}
use gojump.Handler.Session.{ClientLine, Entry, interactive}
use gojump.Handler.Admin.{AdminLine, Output, End, admin_system}
use gojump.Server.Vscode.{VscodeReq, Clients, Event, VscodeEnd, proxy_vscode}

-- The state of the server: `vscode_clients` and `terminalConf` beside the state of the core.
pub record ServerState (World : Type 0) : Type 0 where
  pub shared : World
  pub vscode_clients : Dict VscodeReq
  pub terminal_conf : TerminalConfig

-- The connection, with the values of its context, and all that its client will meet.
pub record Connection (World : Type 0) (Db : Type 0) : Type 0 where
  pub context_user : Option User
  pub direct_login : Option (Dict Str)
  pub ctx_id : Option Str
  pub is_pty : Bool
  pub session_user : Str
  pub height : ℕ
  pub visit : Visit Db
  pub lines : List (ClientLine World Db)
  pub admin_lines : List AdminLine
  pub events : List Event
  pub date : Str
  pub later : Str

-- Which client served the connection, and what came of it.
pub data Report (World : Type 0) (Db : Type 0) : Type 0 where
  not_auth_user no_pty nothing : Report World Db
  direct : Ended → Report World Db
  admin : List Output → End → Report World Db
  table : List (Entry World Db) → Report World Db
  vscode : VscodeEnd → Report World Db

module _ (e : Engine) where
  -- One turn of updateTermCfgPeriodcally: an error keeps the configuration.
  unfoldable pub update_terminal_config : ServerState (Shared e) → ServerState (Shared e)
  update_terminal_config s =
      let (conf, err) = get_terminal_config e s.shared.core.db in
      elim err [ some x ↦ s | none ↦ record s { terminal_conf = conf } ]

  module _ (sort_rows : List Item → List Item) (sort_nodes : List Node → List Node)
      (connect : Server → Error ⊎ ℕ) (describe : Error → Str) (during : Shared e → Shared e)
      (cfg : Config) (cache : Str → Option ℕ) where
    module _ (rune_count : Str → ℕ) (format_time : ℤ → Str) (config_text : Option Str)
        (dial : Asset → SystemUser → Error ⊎ (ℕ × SshClientOptions)) (shell : Option Error)
        (meanwhile : Clients e.Db → Clients e.Db) where
      abbrev pub State : Type 0
      State = ServerState (Shared e)

      abbrev pub Conn : Type 0
      Conn = Connection (Shared e) e.Db

      abbrev pub Result : Type 0
      Result = State × Report (Shared e) e.Db

      with_shared : State → Shared e → State
      with_shared s w = record s { shared = w }

      serve_direct : State → Conn → User → Dict Str → Result
      unfolding with_shared
      serve_direct s c user login =
          let (w, ended) =
            direct_proxy e connect describe during cfg cache s.shared user login c.visit in
          (with_shared s w, direct ended)

      -- The deferred InteractiveLog, behind either client.
      logged_exit : State → Conn → State
      unfolding with_shared
      logged_exit s c =
          let w = s.shared in
          with_shared s (record w { core = interactive_log e w.core c.session_user c.later })

      serve_interactive : State → Conn → User → Result
      unfolding with_shared logged_exit
      serve_interactive s c user =
          let w = s.shared in
          if str_eq user.username (codes "admin")
          then (let (core, out, end) =
                admin_system e user.username rune_count format_time config_text w.core
                  c.admin_lines in
              (logged_exit (with_shared s (record w { core = core })) c, admin out end))
          else (let (w', journal) =
                interactive e sort_rows sort_nodes connect describe during cfg cache user w
                  s.terminal_conf c.height c.visit c.lines in
              (logged_exit (with_shared s w') c, table journal))

      serve_vscode : State → Conn → User → Dict Str → Result
      serve_vscode s c user login =
          let w = s.shared in
          let (k, end) =
            proxy_vscode e dial shell meanwhile
              (record { core = w.core; vscode_clients = s.vscode_clients }) c.ctx_id user login
              c.events c.date c.later in
          (
            record s { shared = record w { core = k.core }; vscode_clients = k.vscode_clients },
            vscode end,
          )

      serve_user : State → Conn → User → Result
      unfolding serve_direct serve_interactive serve_vscode
      serve_user s c user =
          if c.is_pty
          then elim c.direct_login [
            | some login ↦ serve_direct s c user login
            | none ↦ serve_interactive s c user
          ]
          else if not cfg.enable_local_port_forward
          then (s, no_pty)
          else elim c.direct_login [
            | some login ↦ serve_vscode s c user login
            | none ↦ (s, nothing)
          ]

      unfoldable pub session_handler : State → Conn → Result
      unfolding serve_user
      session_handler s c = elim c.context_user [
        | none ↦ (s, not_auth_user)
        | some user ↦ if str_eq user.id [] then (s, not_auth_user) else serve_user s c user
      ]
