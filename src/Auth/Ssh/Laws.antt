-- ===== src/Auth/Ssh/Laws.antt =====
-- Guesses at one name, and their limit.
use gojump.Prelude.{
  ℕ, ◌+◌, ◌-◌, ◌%◌, ◌^◌, ◌≤◌, ◌<◌, Str, List, [], ◌∷◌, Bool, false, ◌≡◌, refl, ap, ◌∙◌, arith,
}
use gojump.Prelude.Int.{ℤ}
use gojump.Prelude.Dict.{str_eq_refl}
use gojump.Store.{Engine}
use gojump.Core.{Core, Config}
use gojump.Core.Login.{user_is_blocked}
use gojump.Core.Login.Laws.{tries, tries-limit}
use gojump.Core.Sessions.{authentication_log}
use gojump.Auth.UserAuth.{AuthResult, auth_failed, auth_block, authenticate}
use gojump.Auth.UserAuth.Laws.{counts-authenticate}
use gojump.Auth.Ssh.{Ctx, login_name, set_option, ssh_auth}

-- One attempt of a client: the password or the key, the time and its text.
pub record Attempt : Type 0 where
  pub password : Str
  pub public_key : Str
  pub now : ℤ
  pub date : Str

module _ (cfg : Config) (e : Engine) (compare_hash : Str → Str → Bool) where
  abbrev outcome : Core e.Db → Ctx → Attempt → AuthResult
  outcome c ctx a =
      (authenticate cfg e compare_hash c
        (set_option ctx.client a.password a.public_key ctx.remote_addr) (login_name ctx.user)
        a.now).2

  -- The attempts of one connection, one after the other.
  pub attempt_all : List Attempt → Core e.Db → Ctx → Core e.Db × Ctx
  attempt_all [] c ctx = (c, ctx)
  attempt_all (a ∷ as') c ctx =
      let (c', ctx', ok) = ssh_auth cfg e compare_hash c ctx a.password a.public_key a.now a.date in
      attempt_all as' c' ctx'

  -- How many of them were compared with the stored credentials and found wrong.
  pub wrong_guesses : List Attempt → Core e.Db → Ctx → ℕ
  wrong_guesses [] c ctx = 0
  wrong_guesses (a ∷ as') c ctx =
      let (c', ctx', ok) = ssh_auth cfg e compare_hash c ctx a.password a.public_key a.now a.date in
      (elim (outcome c ctx a) [ auth_failed ↦ 1 | _ ↦ 0 ]) + wrong_guesses as' c' ctx'

  -- What one attempt does to the user's count.
  attempt_tries :
      (c : Core e.Db) (ctx : Ctx) (a : Attempt)
      → let (c', ctx', ok) =
          ssh_auth cfg e compare_hash c ctx a.password a.public_key a.now a.date in
        (ctx'.user ≡ ctx.user)
        × (tries c' (login_name ctx.user) ≡ elim (outcome c ctx a) [
          | auth_failed ↦ (tries c (login_name ctx.user) + 1) % 2 ^ 64
          | _ ↦ tries c (login_name ctx.user)
        ])
  unfolding ssh_auth authentication_log
  attempt_tries c ctx a =
      let client = set_option ctx.client a.password a.public_key ctx.remote_addr in
      let name = login_name ctx.user in
      let c1 = (authenticate cfg e compare_hash c client name a.now).0 in
      ground (
        arith,
        counts-authenticate cfg e compare_hash c client name a.now,
        tries-limit c1 name name,
        str_eq_refl name,
      )

  attempt_blocked :
      (c : Core e.Db) (ctx : Ctx) (a : Attempt)
      → cfg.max_try_login ≤ tries c (login_name ctx.user)
      → ((ssh_auth cfg e compare_hash c ctx a.password a.public_key a.now a.date).0 ≡ c)
        × ((ssh_auth cfg e compare_hash c ctx a.password a.public_key a.now a.date).2 ≡ false)
        × (outcome c ctx a ≡ auth_block)
  unfolding ssh_auth authenticate user_is_blocked
  attempt_blocked c ctx a h = ground arith

  guess_open :
      (c : Core e.Db) (ctx : Ctx) (a : Attempt)
      → outcome c ctx a ≡ auth_failed
      → tries c (login_name ctx.user) < cfg.max_try_login
  unfolding authenticate user_is_blocked
  guess_open c ctx a h = ground arith

  -- A connection that tries one name again and again gets at most as many wrong guesses compared as
  -- the configured maximum, if it is below 2 ^ 64, leaves to that name, however many attempts it
  -- makes, as long as no timer forgets the count meanwhile.
  pub guesses_bounded :
      (attempts : List Attempt) (c : Core e.Db) (ctx : Ctx)
      → cfg.max_try_login < 2 ^ 64
      → wrong_guesses attempts c ctx ≤ cfg.max_try_login - tries c (login_name ctx.user)
  unfolding wrong_guesses
  guesses_bounded [] c ctx h = omega arith
  guesses_bounded (a ∷ as') c ctx h =
      let (c', ctx', ok) = ssh_auth cfg e compare_hash c ctx a.password a.public_key a.now a.date in
      ground (
        arith,
        attempt_tries c ctx a,
        guess_open c ctx a,
        guesses_bounded as' c' ctx' h,
        ap login_name (attempt_tries c ctx a).0,
      )

  -- A name that is blocked stays so: every attempt is turned away, and none changes the core.
  pub blocked_stays :
      (attempts : List Attempt) (c : Core e.Db) (ctx : Ctx)
      → cfg.max_try_login ≤ tries c (login_name ctx.user)
      → ((attempt_all attempts c ctx).0 ≡ c) × (wrong_guesses attempts c ctx ≡ 0)
  unfolding attempt_all wrong_guesses
  blocked_stays [] c ctx h = (refl, refl)
  blocked_stays (a ∷ as') c ctx h =
      let (c', ctx', ok) = ssh_auth cfg e compare_hash c ctx a.password a.public_key a.now a.date in
      let turned = attempt_blocked c ctx a h in
      let same = ap login_name (attempt_tries c ctx a).0 in
      let later = blocked_stays as' c' ctx' (rw (same, turned.0) h) in
      (later.0 ∙ turned.0, ground (arith, turned.2, later.1))
