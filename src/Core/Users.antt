-- ===== src/Core/Users.antt =====
-- UserAuthenticate and GetUser of pkg/core/user.go, and the two comparisons of pkg/core/utils.go.
-- `compare_hash` stands for bcrypt.CompareHashAndPassword: whether it returns no error.
pub mod Laws
use gojump.Prelude.{
  ℕ, Str, List, [], ◌∷◌, Bool, true, false, not, Option, none, some, if◌then◌else◌, str_eq, split,
  get_elem?, ◌==◌,
}
use gojump.Prelude.Int.{ℤ, pos, negsuc}
use gojump.Model.{User, UserSecret}
use gojump.Store.{Engine, Error, no_such_user, text, query_into}
use gojump.Core.{Core}
use gojump.Core.Otp.{verify_otp}

abbrev pub no_user : User
no_user = record {
  id = [];
  username = [];
  role = [];
  expire_at = pos 0;
  otp_level = pos 0;
  is_active = false;
  node_ids = [];
  addr_white_list = none;
}

abbrev pub no_secret : UserSecret
no_secret = record { user_id = []; password = []; private_key = []; authorized_keys = [] }

-- Whether the second of the line's fields is the key: `keyInfo[1] == currPubkey`.
key_field : List Str → Str → Bool
key_field [] key = false
key_field (kind ∷ []) key = false
key_field (kind ∷ body ∷ rest) key = str_eq body key

pub do_public_key_match : List Str → Str → Bool
unfolding key_field
do_public_key_match [] key = false
do_public_key_match (v ∷ vs) key =
    let rest = do_public_key_match vs key in if key_field (split v b' ') key then true else rest

abbrev pub uses_otp : User → Bool
uses_otp u = elim u.otp_level [ pos n ↦ n == 1 | negsuc n ↦ false ]

module _ (compare_hash : Str → Str → Bool) where
  unfoldable pub do_passwords_match : Str → Str → Bool
  do_passwords_match hashed curr = if str_eq curr [] then false else compare_hash hashed curr

module _ (e : Engine) where
  unfoldable pub get_user : e.Db → Str → User × Option Error
  get_user db name =
      let (user, err) =
        query_into e e.scan_user no_user db "SELECT * FROM USER WHERE username = ?"
          (text name ∷ []) in
      elim err [
        | some x ↦ (user, some x)
        | none ↦ if str_eq user.id [] then (user, some (no_such_user name)) else (user, none)
      ]

  unfoldable pub get_secret : e.Db → User → UserSecret × Option Error
  get_secret db user =
      query_into e e.scan_secret no_secret db "SELECT * FROM USERSECRET WHERE userid = ?"
        (text user.id ∷ [])

  module _ (compare_hash : Str → Str → Bool) where
    -- The part of UserAuthenticate behind its switch on the OTP level.
    check_secret : e.Db → User → Str → Str → Bool
    unfolding do_passwords_match get_secret
    check_secret db user pass pub_key =
        let (sec, err) = get_secret db user in
        elim err [
          | some x ↦ false
          | none ↦
              if str_eq sec.user_id []
              then false
              else if str_eq pub_key []
              then do_passwords_match compare_hash sec.password pass
              else do_public_key_match sec.authorized_keys pub_key
        ]

    unfoldable pub user_authenticate : Core e.Db → Str → Str → Str → Core e.Db × User × Bool
    unfolding check_secret
    user_authenticate c username pass pub_key =
        let (user, err) = get_user c.db username in
        elim err [
          | some x ↦ (c, user, false)
          | none ↦
              if not user.is_active
              then (c, user, false)
              else if uses_otp user
              then (let (c', ok) = verify_otp c user.username pass in (c', user, ok))
              else (c, user, check_secret c.db user pass pub_key)
        ]
