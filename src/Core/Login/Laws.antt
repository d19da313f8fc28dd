-- ===== src/Core/Login/Laws.antt =====
-- The limit on failed logins.
use gojump.Prelude.{
  ℕ, zero, suc, ◌+◌, ◌%◌, ◌^◌, ◌≤◌, ◌<◌, Str, true, if◌then◌else◌, leb, str_eq, eq_iff, ◌≡◌, ◌↔◌,
  arith,
}
use gojump.Prelude.Dict.{lookup, lookup-insert, lookup-delete, str_eq_refl}
use gojump.Core.{Core, Config}
use gojump.Core.Login.{count_or_zero, limit_try_login, reset_try_login, user_is_blocked}

module _ {Db : Type 0} where
  abbrev pub tries : Core Db → Str → ℕ
  tries c user = count_or_zero (lookup user c.try_login_count)

  pub tries-limit :
      (c : Core Db) (user other : Str)
      → tries (limit_try_login c user) other
        ≡ (if str_eq user other then (tries c user + 1) % 2 ^ 64 else tries c other)
  unfolding limit_try_login
  tries-limit c user other = ground (
    arith,
    lookup-insert user other ((tries c user + 1) % 2 ^ 64) c.try_login_count,
    eq_iff user other,
  )

  -- n failures of the user in a row.
  pub limit_times : ℕ → Core Db → Str → Core Db
  limit_times zero c user = c
  limit_times (suc n) c user = limit_times n (limit_try_login c user) user

  tries-limit_times :
      (n : ℕ) (c : Core Db) (user : Str)
      → tries c user + n < 2 ^ 64
      → tries (limit_times n c user) user ≡ tries c user + n
  unfolding limit_times
  tries-limit_times zero c user h = omega arith
  tries-limit_times (suc n) c user h = ground (
    arith,
    tries-limit c user user,
    str_eq_refl user,
    tries-limit_times n (limit_try_login c user) user,
  )

  -- As long as the counter does not wrap, a user is blocked exactly when the failures so far have
  -- reached the configured maximum; once the timer has ended, a user is blocked only if that
  -- maximum is 0.
  pub blocked_exactly :
      (cfg : Config) (n : ℕ) (c : Core Db) (user : Str)
      → tries c user + n < 2 ^ 64
      → ((user_is_blocked cfg (limit_times n c user) user ≡ true)
          ↔ (cfg.max_try_login ≤ tries c user + n))
        × (user_is_blocked cfg (reset_try_login (limit_times n c user) user) user
            ≡ leb cfg.max_try_login 0)
  unfolding user_is_blocked reset_try_login
  blocked_exactly cfg n c user h = ground (
    arith,
    tries-limit_times n c user,
    str_eq_refl user,
    lookup-delete user user (limit_times n c user).try_login_count,
  )
