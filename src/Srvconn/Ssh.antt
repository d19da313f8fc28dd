-- ===== src/Srvconn/Ssh.antt =====
-- The clients of pkg/srvconn/ssh.go: options, methods of authentication, and the count of sessions.
-- pkg/server/sshConn.go holds a copy with gateways that nothing calls. Outside the program are the parsing of keys
-- (`parse_key`, `parse_encrypted`), which names a signer by a number, and the dial. The count is an
-- int32 of the source and an integer here.
pub mod Laws
pub mod Count
use gojump.Prelude.{
  ℕ, Str, List, [], ◌∷◌, ◌++◌, Bool, true, false, ◌||◌, Option, none, some, ◌⊎◌, inl, inr,
  if◌then◌else◌, codes, str_eq, any, keep, ◌==◌, not, ◌+◌, ◌-◌,
}
use gojump.Prelude.Int.{ℤ, pos, ◌-ℤ◌, add_ℤ}
use gojump.Prelude.Format.{itoa}
use gojump.Model.{Asset, SystemUser}
use gojump.Model.Protocol.{protocol_port}
use gojump.Store.{Error}

-- KeyboardInteractiveChallenge: user, instruction, questions, echos.
abbrev pub Challenge : Type 0
Challenge = Str → Str → List Str → List Bool → Option (List Str)

pub data AuthMethod : Type 0 where
  public_keys : ℕ → AuthMethod
  password : Str → AuthMethod
  keyboard_interactive : Challenge → AuthMethod

pub record SshClientOptions : Type 0 where
  pub host : Str
  pub port : Str
  pub username : Str
  pub passwd : Str
  pub private_key : Str
  pub passphrase : Str
  pub timeout : ℤ
  pub keyboard_auth : Option Challenge
  pub private_auth : Option ℕ

-- The answer that AuthMethods makes up: the password, whatever is asked.
unfoldable pub answer_password : Str → Challenge
answer_password pw user instruction [] echos = some []
answer_password pw user instruction (q ∷ qs) echos = some (pw ∷ [])

abbrev pub SshClientOption : Type 0
SshClientOption = SshClientOptions → SshClientOptions

unfoldable pub ssh_client_username : Str → SshClientOption
ssh_client_username username args = record args { username = username }

unfoldable pub ssh_client_password : Str → SshClientOption
ssh_client_password pw args = record args { passwd = pw }

unfoldable pub ssh_client_private_key : Str → SshClientOption
ssh_client_private_key private_key args = record args { private_key = private_key }

unfoldable pub ssh_client_passphrase : Str → SshClientOption
ssh_client_passphrase passphrase args = record args { passphrase = passphrase }

unfoldable pub ssh_client_host : Str → SshClientOption
ssh_client_host host args = record args { host = host }

unfoldable pub ssh_client_port : ℤ → SshClientOption
ssh_client_port port args = record args { port = itoa port }

unfoldable pub ssh_client_timeout : ℤ → SshClientOption
ssh_client_timeout timeout args = record args { timeout = timeout }

unfoldable pub ssh_client_private_auth : ℕ → SshClientOption
ssh_client_private_auth signer args = record args { private_auth = some signer }

unfoldable pub ssh_client_keyboard_auth : Challenge → SshClientOption
ssh_client_keyboard_auth challenge args = record args { keyboard_auth = some challenge }

-- net.JoinHostPort
unfoldable pub join_host_port : Str → Str → Str
join_host_port host port =
    if any (λ c. c == b':' || c == b'%') host
    then codes "[" ++ (host ++ (codes "]:" ++ port))
    else host ++ (codes ":" ++ port)

unfoldable pub default_options : SshClientOptions
default_options = record {
  host = codes "127.0.0.1";
  port = codes "22";
  username = [];
  passwd = [];
  private_key = [];
  passphrase = [];
  timeout = pos 0;
  keyboard_auth = none;
  private_auth = none;
}

apply_options : List SshClientOption → SshClientOptions → SshClientOptions
apply_options [] cfg = cfg
apply_options (f ∷ fs) cfg = apply_options fs (f cfg)

-- What NewSSHClient makes of its options, before the dial.
unfoldable pub options_of : List SshClientOption → SshClientOptions
unfolding apply_options
options_of opts = apply_options opts default_options

unfoldable pub signer_method : Option ℕ → List AuthMethod
signer_method none = []
signer_method (some signer) = public_keys signer ∷ []

module _ (parse_key : Str → Option ℕ) (parse_encrypted : Str → Str → Option ℕ) where
  -- The key by the passphrase, and without it where that fails or there is none.
  unfoldable pub key_methods : SshClientOptions → List AuthMethod
  unfolding signer_method
  key_methods cfg =
      if str_eq cfg.private_key []
      then []
      else if str_eq cfg.passphrase []
      then signer_method (parse_key cfg.private_key)
      else elim (parse_encrypted cfg.private_key cfg.passphrase) [
        | some signer ↦ public_keys signer ∷ []
        | none ↦ signer_method (parse_key cfg.private_key)
      ]

  -- The last two tests: a challenge that was set, or one that answers with the password, which the
  -- options keep.
  unfoldable pub keyboard_methods : SshClientOptions → SshClientOptions × List AuthMethod
  keyboard_methods cfg = elim cfg.keyboard_auth [
    | some challenge ↦ (cfg, keyboard_interactive challenge ∷ [])
    | none ↦
        if str_eq cfg.passwd []
        then (cfg, [])
        else (let challenge = answer_password cfg.passwd in
            (record cfg { keyboard_auth = some challenge }, keyboard_interactive challenge ∷ []))
  ]

  unfoldable pub auth_methods : SshClientOptions → SshClientOptions × List AuthMethod
  unfolding key_methods keyboard_methods
  auth_methods cfg =
      let (cfg', keyboard) = keyboard_methods cfg in
      (
        cfg',
        key_methods cfg
            ++ (signer_method cfg.private_auth
                ++ ((if str_eq cfg.passwd [] then [] else password cfg.passwd ∷ []) ++ keyboard)),
      )

  -- The signer of BuildSSHClientOptions, which takes the password for the passphrase.
  build_signer : SystemUser → List SshClientOption
  build_signer u =
      if str_eq u.private_key [] then [] else elim (parse_encrypted u.private_key u.password) [
        | some signer ↦ ssh_client_private_auth signer ∷ []
        | none ↦ elim (parse_key u.private_key) [
          | some signer ↦ ssh_client_private_auth signer ∷ []
          | none ↦ []
        ]
      ]

  unfoldable pub build_ssh_client_options : ℤ → Asset → SystemUser → List SshClientOption
  unfolding build_signer
  build_ssh_client_options timeout asset u =
      ssh_client_username u.username
      ∷ ssh_client_host asset.ip
      ∷ ssh_client_port (protocol_port asset u.protocol)
      ∷ ssh_client_password u.password
      ∷ ssh_client_timeout timeout
      ∷ build_signer u

-- An SSHClient: its sessions, the count that AddInt32 changes, and the calls under way, which have
-- changed the count and not yet the sessions.
pub record SshClient : Type 0 where
  pub cfg : SshClientOptions
  pub sessions : List ℕ
  pub ref_count : ℤ
  pub acquiring : ℕ
  pub releasing : List ℕ

-- SSHClient.String
unfoldable pub client_string : SshClientOptions → Str
client_string cfg = cfg.username ++ (codes "@" ++ (cfg.host ++ (codes ":" ++ cfg.port)))

-- NewSSHClientWithCfg; `dial` is given the address, the user and the methods.
unfoldable pub new_ssh_client :
    (Str → Option ℕ)
    → (Str → Str → Option ℕ)
    → (Str → Str → List AuthMethod → Option Error)
    → List SshClientOption
    → Error ⊎ SshClient
unfolding options_of join_host_port auth_methods default_options
new_ssh_client parse_key parse_encrypted dial opts =
    let cfg = options_of opts in
    let (cfg', methods) = auth_methods parse_key parse_encrypted cfg in
    elim (dial (join_host_port cfg.host cfg.port) cfg.username methods) [
      | some err ↦ inl err
      | none ↦
          inr
            (record { cfg = cfg'; sessions = []; ref_count = pos 0; acquiring = 0; releasing = [] })
    ]

-- AcquireSession adds to the count, and then has a session or takes the addition back.
unfoldable pub acquire_begin : SshClient → SshClient
acquire_begin c = record c { ref_count = add_ℤ c.ref_count (pos 1); acquiring = c.acquiring + 1 }

unfoldable pub acquire_end : SshClient → Option ℕ → SshClient
acquire_end c none = record c { ref_count = c.ref_count -ℤ pos 1; acquiring = c.acquiring - 1 }
acquire_end c (some sess) = record c { sessions = sess ∷ c.sessions; acquiring = c.acquiring - 1 }

unfoldable pub release_begin : SshClient → ℕ → SshClient
release_begin c sess = record c { ref_count = c.ref_count -ℤ pos 1; releasing = sess ∷ c.releasing }

unfoldable pub release_end : SshClient → ℕ → SshClient
release_end c sess = record c {
  sessions = keep (λ s. not (s == sess)) c.sessions;
  releasing = keep (λ s. not (s == sess)) c.releasing;
}
