-- ===== src/Core/Timers/Stale.antt =====
-- A timer that outlives the password it was started for.
use gojump.Prelude.{Str, List, [], ◌∷◌, none, some, ◌≡◌, ◌≢◌, refl, sym, ap, subst, ◌∙◌, arith}
use gojump.Prelude.Dict.{lookup, insert, delete, lookup-insert, lookup-delete, str_eq_refl}
use gojump.Core.{Core, Timer, clear_otp}
use gojump.Core.Otp.{gen_otpassword, verify_otp, clear_otpassword}
use gojump.Core.Otp.Laws.{verify_current}
use gojump.Core.Timers.{draw, verify, timeout, run, step, fire, expire, take_out}

module _ {Db : Type 0} where
  gen_fresh :
      (c : Core Db) (name pass : Str)
      → lookup name c.otpassword ≡ none
      → gen_otpassword c name pass ≡ (
        record c { otpassword = insert name pass c.otpassword; timers = clear_otp name ∷ c.timers },
        pass,
      )
  unfolding gen_otpassword
  gen_fresh c name pass h = ground arith

  fire_second :
      (c : Core Db) (t : Timer) (name : Str) (rest : List Timer)
      → c.timers ≡ t ∷ clear_otp name ∷ rest
      → lookup name (fire 1 c).otpassword ≡ none
  unfolding fire take_out expire clear_otpassword
  fire_second c t name rest h =
      ground (arith, h, lookup-delete name name c.otpassword, str_eq_refl name)

  -- Where a name has no password: one is drawn and used, and another is drawn. When the timer of the
  -- first one ends, before that of the second, the second password is gone, unused.
  pub stale_timer :
      (c : Core Db) (name first second : Str)
      → lookup name c.otpassword ≡ none
      → first ≢ []
      → let c' = run c (draw name first ∷ verify name first ∷ draw name second ∷ []) in
        (lookup name c'.otpassword ≡ some second)
        × (lookup name (run c' (timeout 1 ∷ [])).otpassword ≡ none)
  unfolding run step
  stale_timer c name first second h ne =
      let c1 : Core Db = record c {
        otpassword = insert name first c.otpassword;
        timers = clear_otp name ∷ c.timers;
      } in
      let one = gen_fresh c name first h in
      let held : lookup name c1.otpassword ≡ some first =
        ground (arith, lookup-insert name name first c.otpassword, str_eq_refl name) in
      let used = verify_current c1 name first held ne in
      let c2 : Core Db = record c1 { otpassword = delete name c1.otpassword } in
      let gone : lookup name c2.otpassword ≡ none =
        ground (arith, lookup-delete name name c1.otpassword, str_eq_refl name) in
      let two = gen_fresh c2 name second gone in
      let c3 : Core Db = record c2 {
        otpassword = insert name second c2.otpassword;
        timers = clear_otp name ∷ c2.timers;
      } in
      let new : lookup name c3.otpassword ≡ some second =
        ground (arith, lookup-insert name name second c2.otpassword, str_eq_refl name) in
      let all : run c (draw name first ∷ verify name first ∷ draw name second ∷ []) ≡ c3 =
        ap (λ (x : Core Db). (gen_otpassword (verify_otp x name first).0 name second).0)
          (ap (λ r. r.0) one)
        ∙ ap (λ (x : Core Db). (gen_otpassword x name second).0) (ap (λ r. r.0) used)
        ∙ ap (λ r. r.0) two in
      subst
        (λ (x : Core Db).
          (lookup name x.otpassword ≡ some second)
          × (lookup name (run x (timeout 1 ∷ [])).otpassword ≡ none))
        (sym all) (new, fire_second c3 (clear_otp name) name c.timers refl)
