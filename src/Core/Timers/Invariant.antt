-- ===== src/Core/Timers/Invariant.antt =====
-- Entries and their timers, over a history.
use gojump.Prelude.{
  ℕ, zero, suc, ◌+◌, ◌≤◌, Str, List, [], ◌∷◌, none, some, if◌then◌else◌, str_eq, eq_iff, ◌≡◌, refl,
  arith, Option-cases, inl, inr, ◌^◌, ◌%◌,
}
use gojump.Prelude.Dict.{lookup, lookup-insert, lookup-delete}
use gojump.Core.{Core, Timer, clear_otp, reset_login, new_core}
use gojump.Core.Otp.{gen_otpassword, verify_otp, clear_otpassword}
use gojump.Core.Login.{count_or_zero, limit_try_login, reset_try_login}
use gojump.Core.Timers.{take_out, expire, fire, Event, draw, verify, fail, timeout, step, run}

-- How many timers wait to delete the name's password, or the user's count.
pub clears : Str → List Timer → ℕ
clears name [] = 0
clears name (clear_otp other ∷ ts) = (if str_eq other name then 1 else 0) + clears name ts
clears name (reset_login user ∷ ts) = clears name ts

pub resets : Str → List Timer → ℕ
resets user [] = 0
resets user (clear_otp name ∷ ts) = resets user ts
resets user (reset_login other ∷ ts) = (if str_eq other user then 1 else 0) + resets user ts

abbrev pub entries {ℓ} : {V : Type ℓ} → Str → List (Str × V) → ℕ
entries k m = elim (lookup k m) [ none ↦ 0 | some v ↦ 1 ]

-- A name's password has a timer; a user's count has exactly one, and no timer lacks its count.
pub record IsTimed {Db : Type 0} (c : Core Db) : Type 0 where
  pub otp : (name : Str) → entries name c.otpassword ≤ clears name c.timers
  pub login : (user : Str) → resets user c.timers ≡ entries user c.try_login_count

clears-take_out :
    (name : Str) (i : ℕ) (ts : List Timer) (t : Timer) (rest : List Timer)
    → take_out i ts ≡ some (t, rest)
    → clears name ts ≡ clears name (t ∷ rest)
unfolding take_out clears
clears-take_out name i [] t rest h = cc
clears-take_out name zero (x ∷ ts) t rest h = ground arith
clears-take_out name (suc i) (x ∷ ts) t rest h = elim (Option-cases (take_out i ts)) [
  | inl e ↦ ground arith
  | inr ((u, us), e) ↦ ground (arith, clears-take_out name i ts u us e)
]

resets-take_out :
    (user : Str) (i : ℕ) (ts : List Timer) (t : Timer) (rest : List Timer)
    → take_out i ts ≡ some (t, rest)
    → resets user ts ≡ resets user (t ∷ rest)
unfolding take_out resets
resets-take_out user i [] t rest h = cc
resets-take_out user zero (x ∷ ts) t rest h = ground arith
resets-take_out user (suc i) (x ∷ ts) t rest h = elim (Option-cases (take_out i ts)) [
  | inl e ↦ ground arith
  | inr ((u, us), e) ↦ ground (arith, resets-take_out user i ts u us e)
]

module _ {Db : Type 0} where
  gen-IsTimed : (c : Core Db) (name pass : Str) → IsTimed c → IsTimed (gen_otpassword c name pass).0
  unfolding gen_otpassword clears resets
  gen-IsTimed c name pass h = record {
    otp = λ n. ground (arith, h.otp n, lookup-insert name n pass c.otpassword);
    login = λ n. ground (arith, h.login n);
  }

  verify-IsTimed : (c : Core Db) (name pass : Str) → IsTimed c → IsTimed (verify_otp c name pass).0
  unfolding verify_otp
  verify-IsTimed c name pass h = record {
    otp = λ n. ground (arith, h.otp n, lookup-delete name n c.otpassword);
    login = λ n. ground (arith, h.login n);
  }

  limit-IsTimed : (c : Core Db) (user : Str) → IsTimed c → IsTimed (limit_try_login c user)
  unfolding limit_try_login clears resets
  limit-IsTimed c user h = record {
    otp = λ n. ground (arith, h.otp n);
    login = λ n. ground (
      arith,
      h.login n,
      eq_iff user n,
      lookup-insert user n ((count_or_zero (lookup user c.try_login_count) + 1) % 2 ^ 64)
          c.try_login_count,
    );
  }

  expire-IsTimed :
      (c : Core Db) (t : Timer) (rest : List Timer)
      → ((n : Str) → clears n c.timers ≡ clears n (t ∷ rest))
      → ((n : Str) → resets n c.timers ≡ resets n (t ∷ rest))
      → IsTimed c
      → IsTimed (expire t (record c { timers = rest }))
  unfolding expire clear_otpassword reset_try_login clears resets
  expire-IsTimed c (clear_otp name) rest hc hr h = record {
    otp = λ n. ground (arith, h.otp n, hc n, eq_iff name n, lookup-delete name n c.otpassword);
    login = λ n. ground (arith, h.login n, hr n);
  }
  expire-IsTimed c (reset_login user) rest hc hr h = record {
    otp = λ n. ground (arith, h.otp n, hc n);
    login =
        λ n. ground (arith, h.login n, hr n, eq_iff user n, lookup-delete user n c.try_login_count);
  }

  fire-IsTimed : (i : ℕ) (c : Core Db) → IsTimed c → IsTimed (fire i c)
  unfolding fire
  fire-IsTimed i c h = elim (Option-cases (take_out i c.timers)) [
    | inl e ↦ rw (e, fire) h
    | inr ((t, rest), e) ↦
        rw (e, fire)
          (expire-IsTimed c t rest (λ n. clears-take_out n i c.timers t rest e)
            (λ n. resets-take_out n i c.timers t rest e) h)
  ]

  step-IsTimed : (c : Core Db) (e : Event) → IsTimed c → IsTimed (step c e)
  unfolding step
  step-IsTimed c (draw name pass) h = gen-IsTimed c name pass h
  step-IsTimed c (verify name pass) h = verify-IsTimed c name pass h
  step-IsTimed c (fail user) h = limit-IsTimed c user h
  step-IsTimed c (timeout i) h = fire-IsTimed i c h

  pub run-IsTimed : (c : Core Db) (es : List Event) → IsTimed c → IsTimed (run c es)
  unfolding run
  run-IsTimed c [] h = h
  run-IsTimed c (e ∷ es) h = run-IsTimed (step c e) es (step-IsTimed c e h)

  -- From the start and over any history of requests and timers, a password that can be used has a
  -- timer that will delete it, and a user has a failure count exactly when one timer, and only one,
  -- waits to forget it.
  pub run_new-IsTimed : (db : Db) (es : List Event) → IsTimed (run (new_core db) es)
  unfolding lookup clears resets
  run_new-IsTimed db es =
      run-IsTimed (new_core db) es (record { otp = λ n. omega arith; login = λ n. refl })
