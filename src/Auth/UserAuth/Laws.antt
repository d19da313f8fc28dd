-- ===== src/Auth/UserAuth/Laws.antt =====
-- When a login succeeds, and what a failed one changes.
use gojump.Prelude.{
  In, head, tail, Str, List, [], ◌∷◌, Bool, true, false, Option, none, some, str_eq, eq_iff, any,
  ◌≡◌, ◌↔◌, ◌⊎◌, inl, inr, refl, arith, Bool-cases,
}
use gojump.Prelude.Int.{ℤ, pos, ltb_ℤ, is_zero, ◌<ℤ◌}
use gojump.Model.{User, UserClient}
use gojump.Store.{Engine}
use gojump.Core.{Core, Config}
use gojump.Core.Otp.{verify_otp}
use gojump.Core.Login.{user_is_blocked}
use gojump.Core.Users.{user_authenticate, get_user}
use gojump.Core.Users.Laws.{Proof, user_authenticate_iff}
use gojump.Auth.UserAuth.{auth_success, addr_allowed, authenticate}

-- The address is admitted: there is no white list, or the address stands in it.
pub data Admits (addr : Str) : Option (List Str) → Type 0 where
  anywhere : Admits addr none
  listed : {addrs : List Str} → In addr addrs → Admits addr (some addrs)

any_sound : (addr : Str) (addrs : List Str) → any (λ a. str_eq addr a) addrs ≡ true → In addr addrs
any_sound addr [] h = cc
any_sound addr (a ∷ as') h = elim (Bool-cases (str_eq addr a)) [
  | inl e ↦ let same = (eq_iff addr a).0 e in rw same head
  | inr e ↦ tail (any_sound addr as' (ground arith))
]

any_complete :
    (addr : Str) (addrs : List Str) → In addr addrs → any (λ a. str_eq addr a) addrs ≡ true
any_complete addr [] h = elim h [ ]
any_complete addr (a ∷ as') head = ground (arith, (eq_iff addr addr).1 refl)
any_complete addr (a ∷ as') (tail i) = ground (arith, any_complete addr as' i)

Admits-iff : (addr : Str) (l : Option (List Str)) → (addr_allowed l addr ≡ true) ↔ Admits addr l
unfolding addr_allowed
Admits-iff addr none = (λ h. anywhere, λ h. refl)
Admits-iff addr (some addrs) = (λ h. listed (any_sound addr addrs h), back)
  where
    back : Admits addr (some addrs) → any (λ a. str_eq addr a) addrs ≡ true
    back (listed i) = any_complete addr addrs i

-- The account has no end, or its end is not before now.
abbrev pub Lasts : User → ℤ → Type 0
Lasts u now = (u.expire_at ≡ pos 0) ⊎ ¬ (u.expire_at <ℤ now)

module _ (cfg : Config) (e : Engine) (compare_hash : Str → Str → Bool) where
  counts-user_authenticate :
      (c : Core e.Db) (username pass key : Str)
      → (user_authenticate e compare_hash c username pass key).0.try_login_count ≡ c.try_login_count
  unfolding user_authenticate verify_otp
  counts-user_authenticate c username pass key = ground arith

  -- No login touches the failure counts by itself, and a blocked user's login touches nothing.
  pub counts-authenticate :
      (c : Core e.Db) (client : UserClient) (username : Str) (now : ℤ)
      → (authenticate cfg e compare_hash c client username now).0.try_login_count
        ≡ c.try_login_count
  unfolding authenticate
  counts-authenticate c client username now =
      ground (arith, counts-user_authenticate c username client.password client.public_key)

  authenticate_parts :
      (c : Core e.Db) (client : UserClient) (username : Str) (now : ℤ) (user : User)
      → let (c', found, res) = authenticate cfg e compare_hash c client username now in
        let (c1, u1, ok) =
          user_authenticate e compare_hash c username client.password client.public_key in
        ((found ≡ user) × (res ≡ auth_success)) ↔ (
          (user_is_blocked cfg c username ≡ false)
          × ((u1 ≡ user) × (ok ≡ true))
          × (addr_allowed user.addr_white_list client.remote_addr ≡ true)
          × (is_zero user.expire_at ≡ true ⊎ ltb_ℤ user.expire_at now ≡ false))
  unfolding authenticate
  authenticate_parts c client username now user = ground arith

  Lasts-iff :
      (u : User) (now : ℤ)
      → (is_zero u.expire_at ≡ true ⊎ ltb_ℤ u.expire_at now ≡ false) ↔ Lasts u now
  Lasts-iff u now = ground arith

  -- A login succeeds exactly when the user is not blocked, the database has an active user of that
  -- name who showed a valid proof, the client's address is admitted and the account has not ended.
  pub authenticate_iff :
      (c : Core e.Db) (client : UserClient) (username : Str) (now : ℤ) (user : User)
      → let (c', found, res) = authenticate cfg e compare_hash c client username now in
        ((found ≡ user) × (res ≡ auth_success)) ↔ (
          (user_is_blocked cfg c username ≡ false)
          × (get_user e c.db username ≡ (user, none))
          × (user.is_active ≡ true)
          × Proof e compare_hash c user client.password client.public_key
          × Admits client.remote_addr user.addr_white_list
          × Lasts user now)
  authenticate_iff c client username now user =
      let parts = authenticate_parts c client username now user in
      let auth =
        user_authenticate_iff e compare_hash c username client.password client.public_key user in
      let addr = Admits-iff client.remote_addr user.addr_white_list in
      (
        λ h.
            let p = parts.0 h in
            let q = auth.0 p.1 in (p.0, q.0, q.1, q.2, addr.0 p.2, (Lasts-iff user now).0 p.3),
        λ h. parts.1 (h.0, auth.1 (h.1, h.2, h.3), addr.1 h.4, (Lasts-iff user now).1 h.5),
      )
