-- ===== src/Core/Otp/Race.antt =====
-- Two requests side by side. A request of verifyOTP is two steps, since the lock is
-- released between the test and the deletion.
use gojump.Prelude.{
  Str, List, [], ◌∷◌, Bool, true, false, some, if◌then◌else◌, eq_iff, ◌≡◌, ◌≢◌, arith,
}
use gojump.Prelude.Dict.{lookup, delete, lookup-delete, str_eq_refl}
use gojump.Core.{Core}
use gojump.Core.Otp.{clear_otpassword, otp_matches, verify_otp}

-- How far one request has come.
pub data Phase : Type 0 where
  testing deleting : Phase
  answered : Bool → Phase

module _ {Db : Type 0} where
  pub advance : Core Db → Str → Str → Phase → Core Db × Phase
  unfolding otp_matches
  advance c name input testing = (c, if otp_matches c name input then deleting else answered false)
  advance c name input deleting = (clear_otpassword c name, answered true)
  advance c name input (answered b) = (c, answered b)

  -- Two requests with the same name and password; the schedule says which of them goes on.
  pub run_two : List Bool → Core Db → Str → Str → Phase → Phase → Core Db × Phase × Phase
  run_two [] c name input p q = (c, p, q)
  run_two (false ∷ rest) c name input p q =
      let (c', p') = advance c name input p in run_two rest c' name input p' q
  run_two (true ∷ rest) c name input p q =
      let (c', q') = advance c name input q in run_two rest c' name input p q'

  -- One request that runs alone is verifyOTP.
  pub advance_alone :
      (c : Core Db) (name input : Str)
      → let (c', p) = advance c name input testing in
        advance c' name input p
        ≡ ((verify_otp c name input).0, answered (verify_otp c name input).1)
  unfolding advance verify_otp
  advance_alone c name input = ground arith

  -- Requests one after the other with a stored password that is not empty: the first uses it up and
  -- the second is refused.
  pub run_in_turn :
      (c : Core Db) (name pass : Str)
      → pass ≢ []
      → lookup name c.otpassword ≡ some pass
      → run_two (false ∷ false ∷ true ∷ true ∷ []) c name pass testing testing
        ≡ (record c { otpassword = delete name c.otpassword }, answered true, answered false)
  unfolding advance run_two otp_matches clear_otpassword
  run_in_turn c name pass h e = ground (
    arith,
    eq_iff pass [],
    str_eq_refl pass,
    str_eq_refl name,
    lookup-delete name name c.otpassword,
  )

  -- Requests that overlap: when both tests come before either deletion, a stored password that is
  -- not empty and is meant for one use is accepted twice.
  pub run_overlapping :
      (c : Core Db) (name pass : Str)
      → pass ≢ []
      → lookup name c.otpassword ≡ some pass
      → run_two (false ∷ true ∷ false ∷ true ∷ []) c name pass testing testing
        ≡ (record c { otpassword = delete name c.otpassword }, answered true, answered true)
  unfolding advance run_two otp_matches clear_otpassword
  run_overlapping c name pass h e = ground (
    arith,
    eq_iff pass [],
    str_eq_refl pass,
    str_eq_refl name,
    lookup-delete name name c.otpassword,
  )
