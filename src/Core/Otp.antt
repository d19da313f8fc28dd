-- ===== src/Core/Otp.antt =====
-- pkg/core/otp.go: one-time passwords. `pass` is the text that `randomPass` drew.
pub mod Laws
pub mod Race
use gojump.Prelude.{
  ℕ, Str, List, [], ◌∷◌, Bool, true, false, Option, none, some, if◌then◌else◌, str_eq,
}
use gojump.Prelude.Dict.{Dict, lookup, insert, delete}
use gojump.Core.{Core, Timer, clear_otp}

module _ {Db : Type 0} where
  -- A password that is still there is handed out again; a fresh one starts its timer.
  unfoldable pub gen_otpassword : Core Db → Str → Str → Core Db × Str
  gen_otpassword c name pass = elim (lookup name c.otpassword) [
    | some old ↦ (c, old)
    | none ↦ (
      record c { otpassword = insert name pass c.otpassword; timers = clear_otp name ∷ c.timers },
      pass,
    )
  ]

  -- clearOTPassword, after its sleep.
  unfoldable pub clear_otpassword : Core Db → Str → Core Db
  clear_otpassword c name = elim (lookup name c.otpassword) [
    | none ↦ c
    | some pass ↦ record c { otpassword = delete name c.otpassword }
  ]

  -- The test of verifyOTP, with the lock held once.
  unfoldable pub otp_matches : Core Db → Str → Str → Bool
  otp_matches c name input_pass =
      if str_eq input_pass []
      then false
      else elim (lookup name c.otpassword) [ none ↦ false | some pass ↦ str_eq pass input_pass ]

  -- verifyOTP, with no other request between its test and its call of clearOTPassword.
  unfoldable pub verify_otp : Core Db → Str → Str → Core Db × Bool
  unfolding otp_matches clear_otpassword
  verify_otp c name input_pass =
      let res = otp_matches c name input_pass in (if res then clear_otpassword c name else c, res)
