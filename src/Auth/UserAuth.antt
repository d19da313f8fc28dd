-- ===== src/Auth/UserAuth.antt =====
-- pkg/auth/userAuth.go. `now` is the time in Unix seconds.
pub mod Laws
use gojump.Prelude.{
  Str, List, [], ◌∷◌, Bool, true, false, not, Option, none, some, if◌then◌else◌, str_eq, any, ◌&&◌,
}
use gojump.Prelude.Int.{ℤ, ltb_ℤ, is_zero}
use gojump.Model.{User, UserClient}
use gojump.Store.{Engine}
use gojump.Core.{Core, Config}
use gojump.Core.Login.{user_is_blocked}
use gojump.Core.Users.{no_user, user_authenticate}

pub data AuthResult : Type 0 where
  auth_failed auth_block auth_success : AuthResult

-- A nil white list admits every address, an empty one none.
addr_allowed : Option (List Str) → Str → Bool
addr_allowed none addr = true
addr_allowed (some addrs) addr = any (λ a. str_eq addr a) addrs

module _ (cfg : Config) (e : Engine) (compare_hash : Str → Str → Bool) where
  unfoldable pub authenticate : Core e.Db → UserClient → Str → ℤ → Core e.Db × User × AuthResult
  unfolding addr_allowed
  authenticate c client username now =
      if user_is_blocked cfg c username
      then (c, no_user, auth_block)
      else (let (c', user, ok) =
            user_authenticate e compare_hash c username client.password client.public_key in
          if not ok
          then (c', no_user, auth_failed)
          else if not (addr_allowed user.addr_white_list client.remote_addr)
          then (c', no_user, auth_failed)
          else if not (is_zero user.expire_at) && ltb_ℤ user.expire_at now
          then (c', no_user, auth_failed)
          else (c', user, auth_success))
