-- ===== src/Proxy/Server/Credentials.antt =====
-- When checkRequiredAuth of pkg/proxy/server.go has what it needs, said without its code.
pub mod Named
pub mod Laws
use gojump.Prelude.{
  if◌then◌else◌, ℕ, Str, List, [], ◌∷◌, true, false, Option, none, some, codes, str_eq, eq_iff, ◌≡◌,
  ◌≢◌, ◌↔◌, ◌⊎◌, inl, inr, refl, sym, ◌∙◌, subst, arith, Bool-cases, Option-cases,
}
use gojump.Prelude.Atoi.{trim_space}
use mathlib.Core.Option.{some-injective}
use gojump.Core.{Config}
use gojump.Srvconn.Clients.{make_reuse_ssh_client_key}
use gojump.Proxy.Server.{
  Server, protocol_ssh, read_username, with_system_user, get_username_if_need,
  get_auth_password_if_need, check_reuse_ssh_client, get_cache_ssh_conn, ask_password,
  check_required_auth,
}

-- The first line that is not blank, without the blanks around it.
pub data FirstLine (name : Str) : List Str → Type 0 where
  here :
      (line : Str) (rest : List Str)
      → trim_space line ≡ name
      → name ≢ []
      → FirstLine name (line ∷ rest)
  blank :
      (line : Str) (rest : List Str)
      → trim_space line ≡ []
      → FirstLine name rest
      → FirstLine name (line ∷ rest)

abbrev pub login_name : Server → Str
login_name s = s.conn_opts.system_user.username

abbrev pub named : Server → Str → Server
named s name = record s {
  conn_opts = record s.conn_opts {
    system_user = record s.conn_opts.system_user { username = name };
  };
}

-- The system user has a name, or the user typed one.
pub data IsNamed (s : Server) (lines : List Str) : Server → Type 0 where
  own : login_name s ≢ [] → IsNamed s lines s
  typed : (name : Str) → login_name s ≡ [] → FirstLine name lines → IsNamed s lines (named s name)

abbrev pub secret : Server → Str
secret s = s.conn_opts.system_user.password

abbrev pub private_key : Server → Str
private_key s = s.conn_opts.system_user.private_key

abbrev pub with_secret : Server → Str → Server
with_secret s line = record s {
  conn_opts = record s.conn_opts {
    system_user = record s.conn_opts.system_user { password = line };
  };
}

module _ (cfg : Config) (cache : Str → Option ℕ) where
  -- Clients are shared: the setting is on, and the asset runs Linux.
  abbrev pub IsShared : Server → Type 0
  IsShared s = (cfg.reuse_connection ≡ true) × (s.conn_opts.asset.platform ≡ codes "Linux")

  -- What the cache has for the login.
  abbrev pub cached : Server → Option ℕ
  cached s = cache (
      make_reuse_ssh_client_key s.conn_opts.user.id s.conn_opts.asset.id s.conn_opts.system_user.id
        s.conn_opts.asset.ip s.conn_opts.system_user.username)

  -- No client of the cache serves the login.
  abbrev pub IsAlone : Server → Type 0
  IsAlone s =
      (cfg.reuse_connection ≡ false)
      ⊎ ((s.conn_opts.asset.platform ≢ codes "Linux") ⊎ (cached s ≡ none))

  -- A cached client serves the login, or the system user has a private key or a password, or the
  -- user typed a password.
  pub data IsProven (s : Server) (password : Option Str) : Server → Type 0 where
    shared :
        (conn : ℕ)
        → IsShared s
        → cached s ≡ some conn
        → IsProven s password (record s { cache_ssh_connection = some conn })
    by_key : IsAlone s → private_key s ≢ [] → IsProven s password s
    by_secret : IsAlone s → private_key s ≡ [] → secret s ≢ [] → IsProven s password s
    asked :
        (line : Str)
        → IsAlone s
        → private_key s ≡ []
        → secret s ≡ []
        → password ≡ some line
        → IsProven s password (with_secret s line)

  -- The login is over ssh, under a name, and proven. `s1` is the server with what was found out.
  pub record HasCredentials (s : Server) (lines : List Str) (password : Option Str) (s1 : Server)
      : Type 0 where
    pub ssh : s.conn_opts.system_user.protocol ≡ protocol_ssh
    pub s0 : Server
    pub name : IsNamed s lines s0
    pub proof : IsProven s0 password s1
