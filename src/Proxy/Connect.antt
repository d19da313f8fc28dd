-- ===== src/Proxy/Connect.antt =====
-- getSSHConn and getCacheSSHConn of pkg/proxy/server.go, with NewSSHConnection of
-- pkg/srvconn/connSsh.go. Outside the program are the dial, the parsing of keys, what AcquireSession
-- has from the ssh library (`new_session`) and the answers of a session to its requests. A client
-- is named by a number, and a call of getSSHConn gives its client a fresh one.
pub mod Laws
pub mod Keyboard
pub mod Reuse
use gojump.Prelude.{
  ℕ, Str, List, [], ◌∷◌, ◌++◌, Bool, true, false, not, ◌&&◌, ◌||◌, Option, none, some, ◌⊎◌, inl,
  inr, if◌then◌else◌, codes, str_eq, ◌==◌, contains,
}
use gojump.Prelude.Int.{ℤ, pos}
use gojump.Model.Protocol.{to_lower}
use gojump.Store.{Error}
use gojump.Srvconn.Clients.{Manager, get, store, make_reuse_ssh_client_key}
use gojump.Srvconn.Clients
use gojump.Srvconn.Ssh.{
  Challenge, AuthMethod, SshClient, ssh_client_keyboard_auth, build_ssh_client_options,
  new_ssh_client, acquire_begin, acquire_end, release_begin, release_end,
}
use gojump.Proxy.Server.{Server}

pub record Windows : Type 0 where
  pub width : ℤ
  pub height : ℤ

-- SSHOptions
pub record SshOptions : Type 0 where
  pub win : Windows
  pub term : Str

unfoldable pub ssh_pty_win : Windows → SshOptions → SshOptions
ssh_pty_win win opt = record opt { win = win }

unfoldable pub ssh_term : Str → SshOptions → SshOptions
ssh_term term_type opt = record opt { term = term_type }

-- What a session answers to RequestPty (of a terminal, its height and its width), StdinPipe,
-- StdoutPipe and Shell.
pub record Replies : Type 0 where
  pub request_pty : Str → ℤ → ℤ → Option Error
  pub stdin_pipe : Option Error
  pub stdout_pipe : Option Error
  pub shell : Option Error

pub record SshConnection : Type 0 where
  pub session : ℕ
  pub options : SshOptions

set_options : List (SshOptions → SshOptions) → SshOptions → SshOptions
set_options [] options = options
set_options (setter ∷ opts) options = set_options opts (setter options)

unfoldable pub new_ssh_connection :
    ℕ → Replies → List (SshOptions → SshOptions) → Error ⊎ SshConnection
unfolding set_options
new_ssh_connection sess r opts =
    let options =
      set_options opts
        (record { win = record { width = pos 80; height = pos 120 }; term = codes "xterm" }) in
    elim (r.request_pty options.term options.win.height options.win.width) [
      | some err ↦ inl err
      | none ↦ elim r.stdin_pipe [
        | some err ↦ inl err
        | none ↦ elim r.stdout_pipe [
          | some err ↦ inl err
          | none ↦ elim r.shell [
            | some err ↦ inl err
            | none ↦ inr (record { session = sess; options = options })
          ]
        ]
      ]
    ]

-- The loop over the questions. No letter outside ASCII becomes one of "password" in lower case.
-- `lines` is what the reads of this call return, in order; a read that
-- fails gives the empty line.
unfoldable pub answer_questions : (password private_key : Str) → List Str → List Str → List Str
answer_questions password private_key [] lines = []
answer_questions password private_key (q ∷ qs) [] =
    let rest = answer_questions password private_key qs [] in
    if contains (to_lower q) (codes "password")
      && (not (str_eq private_key []) || not (str_eq password []))
    then password ∷ rest
    else [] ∷ rest
answer_questions password private_key (q ∷ qs) (line ∷ lines) =
    let kept = answer_questions password private_key qs (line ∷ lines) in
    let read = answer_questions password private_key qs lines in
    if contains (to_lower q) (codes "password")
      && (not (str_eq private_key []) || not (str_eq password []))
    then password ∷ kept
    else line ∷ read

-- The cache and the clients that numbers name.
pub record Connects : Type 0 where
  pub manager : Manager
  pub clients : ℕ → SshClient

unfoldable pub set_client : ℕ → SshClient → Connects → Connects
set_client n c cs = record cs { clients = λ m. if m == n then c else cs.clients m }

-- SSHClient.RefCount of every client.
unfoldable pub ref_counts : Connects → ℕ → ℤ
ref_counts cs n = (cs.clients n).ref_count

-- AcquireSession, then NewSSHConnection; a connection that cannot be made gives the session back.
unfoldable pub open_on :
    Connects
    → ℕ
    → Error ⊎ ℕ
    → Replies
    → List (SshOptions → SshOptions)
    → Connects × (Error ⊎ SshConnection)
open_on cs n new_session r opts =
    let begun = acquire_begin (cs.clients n) in
    elim new_session [
      | inl err ↦ (set_client n (acquire_end begun none) cs, inl err)
      | inr sess ↦
          let client = acquire_end begun (some sess) in
          elim (new_ssh_connection sess r opts) [
            | inl err ↦ (set_client n (release_end (release_begin client sess) sess) cs, inl err)
            | inr conn ↦ (set_client n client cs, inr conn)
          ]
    ]

unfoldable pub reuse_key : Server → Str
reuse_key s =
    make_reuse_ssh_client_key s.conn_opts.user.id s.conn_opts.asset.id s.conn_opts.system_user.id
      s.conn_opts.asset.ip s.conn_opts.system_user.username

some_connection : Error ⊎ SshConnection → Option SshConnection
some_connection (inl err) = none
some_connection (inr conn) = some conn

-- getCacheSSHConn at the time `now`, for a terminal of that name and size.
unfoldable pub cached_connection :
    Connects → ℕ → Server → Error ⊎ ℕ → Replies → Str → Windows → Connects × Option SshConnection
unfolding some_connection
cached_connection cs now s new_session r term win =
    let (m, found) = Clients.turn (ref_counts cs) cs.manager now (get (reuse_key s)) in
    let cs1 = record cs { manager = m } in
    elim found [
      | none ↦ (cs1, none)
      | some n ↦
          let (cs2, conn) = open_on cs1 n new_session r (ssh_pty_win win ∷ ssh_term term ∷ []) in
          (cs2, some_connection conn)
    ]

module _ (parse_key : Str → Option ℕ) (parse_encrypted : Str → Str → Option ℕ)
    (dial : Str → Str → List AuthMethod → Option Error) (timeout : ℤ) where
  -- The client of getSSHConn, with its challenge last among the options.
  unfoldable pub dial_client : Server → List Str → Error ⊎ SshClient
  dial_client s lines =
      let u = s.conn_opts.system_user in
      let challenge : Challenge = λ user instruction questions echos.
        some (answer_questions u.password u.private_key questions lines) in
      new_ssh_client parse_key parse_encrypted dial (
        build_ssh_client_options parse_key parse_encrypted timeout s.conn_opts.asset u
        ++ (ssh_client_keyboard_auth challenge ∷ []))

  unfoldable pub get_ssh_conn :
      Connects
      → (now n : ℕ) → Server
      → List Str
      → Error ⊎ ℕ
      → Replies
      → Str
      → Windows
      → Connects × (Error ⊎ SshConnection)
  get_ssh_conn cs now n s lines new_session r term win = elim (dial_client s lines) [
    | inl err ↦ (cs, inl err)
    | inr client ↦
        let cs1 = set_client n client cs in
        let (m, sent) = Clients.turn (ref_counts cs1) cs1.manager now (store (reuse_key s) n) in
        open_on (record cs1 { manager = m }) n new_session r (ssh_term term ∷ ssh_pty_win win ∷ [])
  ]
