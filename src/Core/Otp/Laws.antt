-- ===== src/Core/Otp/Laws.antt =====
-- What a one-time password promises.
use gojump.Prelude.{List, ◌∷◌, ◌∙◌, All, Str, [], true, false, none, some, eq_iff, ◌≡◌, ◌≢◌, arith}
use gojump.Prelude.Dict.{lookup, delete, lookup-insert, lookup-delete, str_eq_refl}
use gojump.Core.{Core}
use gojump.Core.Otp.{gen_otpassword, clear_otpassword, otp_matches, verify_otp}

-- What a request or a timer does under the lock of the passwords: drawing one, the test of
-- verifyOTP, and the deletion, which verifyOTP and the timers do under a lock of its own.
pub data Section : Type 0 where
  draws tests : Str → Str → Section
  clears : Str → Section

-- No password is drawn for the name.
abbrev pub Spares : Str → Section → Type 0
Spares name (draws other pass) = other ≢ name
Spares name (tests other input) = Unit
Spares name (clears other) = Unit

module _ {Db : Type 0} where
  pub lookup-gen :
      (c : Core Db) (name pass : Str)
      → lookup name (gen_otpassword c name pass).0.otpassword ≡ some (gen_otpassword c name pass).1
  unfolding gen_otpassword
  lookup-gen c name pass =
      ground (arith, lookup-insert name name pass c.otpassword, str_eq_refl name)

  pub verify_current :
      (c : Core Db) (name pass : Str)
      → lookup name c.otpassword ≡ some pass
      → pass ≢ []
      → verify_otp c name pass ≡ (record c { otpassword = delete name c.otpassword }, true)
  unfolding verify_otp
  verify_current c name pass h e = ground (arith, eq_iff pass [], str_eq_refl pass)

  pub verify_absent :
      (c : Core Db) (name input : Str)
      → lookup name c.otpassword ≡ none
      → verify_otp c name input ≡ (c, false)
  unfolding verify_otp
  verify_absent c name input h = ground arith

  pub verify_wrong :
      (c : Core Db) (name input pass : Str)
      → lookup name c.otpassword ≡ some pass
      → pass ≢ input
      → verify_otp c name input ≡ (c, false)
  unfolding verify_otp
  verify_wrong c name input pass h e = ground (arith, eq_iff pass input)

  -- One section of the code under the lock of the passwords.
  abbrev pub enter : Core Db → Section → Core Db
  enter c (draws name pass) = (gen_otpassword c name pass).0
  enter c (tests name input) = c
  enter c (clears name) = clear_otpassword c name

  abbrev pub enter_all : Core Db → List Section → Core Db
  enter_all c [] = c
  enter_all c (d ∷ ds) = enter_all (enter c d) ds

  pub gen-lookup_ne :
      (c : Core Db) (name other pass : Str)
      → name ≢ other
      → lookup other (gen_otpassword c name pass).0.otpassword ≡ lookup other c.otpassword
  unfolding gen_otpassword
  gen-lookup_ne c name other pass h =
      ground (arith, lookup-insert name other pass c.otpassword, eq_iff name other)

  enter-absent :
      (c : Core Db) (name : Str) (d : Section)
      → Spares name d
      → lookup name c.otpassword ≡ none
      → lookup name (enter c d).otpassword ≡ none
  unfolding clear_otpassword
  enter-absent c name (draws other pass) n h = gen-lookup_ne c other name pass n ∙ h
  enter-absent c name (tests other input) n h = h
  enter-absent c name (clears other) n h = ground (arith, h, lookup-delete other name c.otpassword)

  enter_all-absent :
      (c : Core Db) (name : Str) (ds : List Section)
      → All (Spares name) ds
      → lookup name c.otpassword ≡ none
      → lookup name (enter_all c ds).otpassword ≡ none
  enter_all-absent c name [] n h = h
  enter_all-absent c name (d ∷ ds) n h =
      enter_all-absent (enter c d) name ds n.1 (enter-absent c name d n.0 h)

  absent-otp_matches :
      (c : Core Db) (name input : Str)
      → lookup name c.otpassword ≡ none
      → otp_matches c name input ≡ false
  unfolding otp_matches
  absent-otp_matches c name input h = ground (arith, h)

  -- A password that was handed out, if it is not empty, is accepted by its name in a request that
  -- nothing comes between, and a wrong one is refused and changes nothing before that. Once the request that used it has deleted it, every test
  -- of that name fails, and with it every request, whatever draws for other names, tests and
  -- deletions of other requests and timers come between, as long as no password is drawn again for
  -- that name.
  pub verify_once :
      (c : Core Db) (name pass wrong input : Str) (ds : List Section)
      → (gen_otpassword c name pass).1 ≢ []
      → (gen_otpassword c name pass).1 ≢ wrong
      → All (Spares name) ds
      → let (c', handed) = gen_otpassword c name pass in
        let later = enter_all (verify_otp c' name handed).0 ds in
        (verify_otp c' name wrong ≡ (c', false))
        × ((verify_otp c' name handed).1 ≡ true)
        × (otp_matches later name input ≡ false)
        × (verify_otp later name input ≡ (later, false))
  verify_once c name pass wrong input ds nonempty differs spared =
      let (c', handed) = gen_otpassword c name pass in
      let current = verify_current c' name handed (lookup-gen c name pass) nonempty in
      let used : lookup name (verify_otp c' name handed).0.otpassword ≡ none =
        rw current (rw (lookup-delete name name c'.otpassword, str_eq_refl name)) in
      let gone = enter_all-absent (verify_otp c' name handed).0 name ds spared used in
      let later = enter_all (verify_otp c' name handed).0 ds in
      (
        verify_wrong c' name wrong handed (lookup-gen c name pass) differs,
        rw current,
        absent-otp_matches later name input gone,
        verify_absent later name input gone,
      )

  -- Requests for one name leave the passwords of the others alone.
  pub verify-lookup_ne :
      (c : Core Db) (name other input : Str)
      → name ≢ other
      → lookup other (verify_otp c name input).0.otpassword ≡ lookup other c.otpassword
  unfolding verify_otp
  verify-lookup_ne c name other input h =
      ground (arith, lookup-delete name other c.otpassword, eq_iff name other)
