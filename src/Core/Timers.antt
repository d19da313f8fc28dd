-- ===== src/Core/Timers.antt =====
-- The goroutines of pkg/core that sleep and then delete an entry. `fire` ends the i-th of them.
use gojump.Prelude.{ℕ, zero, suc, Str, List, [], ◌∷◌, Option, none, some}
use gojump.Core.{Core, Timer, clear_otp, reset_login}
use gojump.Core.Otp.{clear_otpassword, gen_otpassword, verify_otp}
use gojump.Core.Login.{reset_try_login, limit_try_login}
pub mod Invariant
pub mod Stale

pub take_out : ℕ → List Timer → Option (Timer × List Timer)
take_out i [] = none
take_out zero (t ∷ ts) = some (t, ts)
take_out (suc i) (t ∷ ts) = elim (take_out i ts) [
  | none ↦ none
  | some (u, rest) ↦ some (u, t ∷ rest)
]

-- What requests, administrators and timers do to the two maps.
pub data Event : Type 0 where
  draw verify : Str → Str → Event
  fail : Str → Event
  timeout : ℕ → Event

module _ {Db : Type 0} where
  pub expire : Timer → Core Db → Core Db
  expire (clear_otp name) c = clear_otpassword c name
  expire (reset_login user) c = reset_try_login c user

  pub fire : ℕ → Core Db → Core Db
  unfolding expire take_out
  fire i c = elim (take_out i c.timers) [
    | none ↦ c
    | some (t, rest) ↦ expire t (record c { timers = rest })
  ]

  pub step : Core Db → Event → Core Db
  step c (draw name pass) = (gen_otpassword c name pass).0
  step c (verify name input) = (verify_otp c name input).0
  step c (fail user) = limit_try_login c user
  step c (timeout i) = fire i c

  pub run : Core Db → List Event → Core Db
  run c [] = c
  run c (e ∷ es) = run (step c e) es
