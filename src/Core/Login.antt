-- ===== src/Core/Login.antt =====
-- LimitTryLogin and UserIsBlocked of pkg/core/auth.go. The counter is a uint64.
pub mod Laws
use gojump.Prelude.{
  ℕ, ◌+◌, ◌%◌, ◌^◌, Str, List, [], ◌∷◌, Bool, true, false, Option, none, some, if◌then◌else◌, leb,
}
use gojump.Prelude.Dict.{Dict, lookup, insert, delete}
use gojump.Core.{Core, Config, Timer, reset_login}

-- A map of counters reads 0 where there is no entry.
abbrev pub count_or_zero : Option ℕ → ℕ
count_or_zero none = 0
count_or_zero (some n) = n

module _ {Db : Type 0} where
  -- The first failure of a user starts the timer that forgets the user's count.
  unfoldable pub limit_try_login : Core Db → Str → Core Db
  limit_try_login c user =
      let found = lookup user c.try_login_count in
      let count = count_or_zero found in
      let counts = insert user ((count + 1) % 2 ^ 64) c.try_login_count in
      elim found [
        | none ↦ record c { try_login_count = counts; timers = reset_login user ∷ c.timers }
        | some n ↦ record c { try_login_count = counts }
      ]

  -- The goroutine of LimitTryLogin, after its timer.
  unfoldable pub reset_try_login : Core Db → Str → Core Db
  reset_try_login c user = record c { try_login_count = delete user c.try_login_count }

  unfoldable pub user_is_blocked : Config → Core Db → Str → Bool
  user_is_blocked cfg c user = leb cfg.max_try_login (count_or_zero (lookup user c.try_login_count))
