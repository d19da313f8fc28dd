-- ===== src/Auth/Ssh.antt =====
-- pkg/auth/ssh.go and the two handlers of pkg/server/sshHandler.go that call it. The values that
-- the program keeps on an ssh.Context are the fields of `Ctx`; `remote_addr` is its host part.
pub mod Laws
use gojump.Prelude.{
  Str, List, [], ◌∷◌, Bool, true, false, not, Option, none, some, if◌then◌else◌, str_eq, split,
  codes,
}
use gojump.Prelude.Int.{ℤ}
use gojump.Prelude.Dict.{Dict, lookup}
use gojump.Model.{User, UserClient}
use gojump.Store.{Engine}
use gojump.Core.{Core, Config}
use gojump.Core.Login.{limit_try_login}
use gojump.Core.Sessions.{authentication_log}
use gojump.Core.Assets.{or_empty}
use gojump.Auth.UserAuth.{AuthResult, auth_failed, auth_block, auth_success, authenticate}

pub record Ctx : Type 0 where
  pub user : Str
  pub remote_addr : Str
  pub context_user : Option User
  pub client : Option UserClient
  pub direct_login : Option (Dict Str)

abbrev pub no_client : UserClient
no_client = record { username = []; password = []; public_key = []; remote_addr = [] }

direct_fields : List Str → Option (Dict Str)
direct_fields (user ∷ sys_user ∷ asset ∷ []) =
    some ((codes "username", user) ∷ (codes "sysuser", sys_user) ∷ (codes "asset", asset) ∷ [])
direct_fields _ = none

-- `user@sysuser@asset`
unfoldable pub parse_user_format_by_separator : Str → Option (Dict Str)
unfolding direct_fields
parse_user_format_by_separator s = direct_fields (split s b'@')

-- The name that is logged in: the first field of a direct login, or the whole text.
unfoldable pub login_name : Str → Str
login_name s = elim (parse_user_format_by_separator s) [
  | none ↦ s
  | some res ↦ or_empty (lookup (codes "username") res)
]

-- UserClient.SetOption with the password, the key and the address; the name stays as it was.
unfoldable pub set_option : Option UserClient → Str → Str → Str → UserClient
set_option found password public_key remote_addr =
    let client : UserClient = elim found [ none ↦ no_client | some c ↦ c ] in
    record client { password = password; public_key = public_key; remote_addr = remote_addr }

module _ (cfg : Config) (e : Engine) (compare_hash : Str → Str → Bool) where
  -- What the switch on the result does.
  conclude :
      Core e.Db
      → Ctx
      → (username auth_method date : Str) → User
      → AuthResult
      → Core e.Db × Ctx × Bool
  conclude c ctx username auth_method date user auth_success = (
    authentication_log e c username auth_method ctx.remote_addr date,
    record ctx { context_user = some user },
    true,
  )
  conclude c ctx username auth_method date user auth_failed =
      (limit_try_login c username, ctx, false)
  conclude c ctx username auth_method date user auth_block = (c, ctx, false)

  unfoldable pub ssh_auth :
      Core e.Db → Ctx → (password public_key : Str) → ℤ → Str → Core e.Db × Ctx × Bool
  unfolding conclude login_name set_option
  ssh_auth c ctx password public_key now date =
      let auth_method : Str = if str_eq password [] then codes "publickey" else codes "password" in
      let direct : Option (Dict Str) = elim (parse_user_format_by_separator ctx.user) [
        | none ↦ ctx.direct_login
        | some res ↦ some res
      ] in
      let username = login_name ctx.user in
      let client = set_option ctx.client password public_key ctx.remote_addr in
      let ctx' : Ctx = record ctx { direct_login = direct; client = some client } in
      let (c', user, res) = authenticate cfg e compare_hash c client username now in
      conclude c' ctx' username auth_method date user res

  -- PasswordAuth and PublicKeyAuth: `enabled` is the setting of the terminal's configuration, and
  -- `encoded` the base64 text of the marshalled key.
  unfoldable pub password_auth : Bool → Core e.Db → Ctx → Str → ℤ → Str → Core e.Db × Ctx × Bool
  password_auth enabled c ctx password now date =
      if not enabled then (c, ctx, false) else ssh_auth c ctx password [] now date

  unfoldable pub public_key_auth : Bool → Core e.Db → Ctx → Str → ℤ → Str → Core e.Db × Ctx × Bool
  public_key_auth enabled c ctx encoded now date =
      if not enabled then (c, ctx, false) else ssh_auth c ctx [] encoded now date
