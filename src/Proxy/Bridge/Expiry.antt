-- ===== src/Proxy/Bridge/Expiry.antt =====
-- The end of a bridge when the permission has expired.
use gojump.Prelude.{ℕ, List, [], ◌∷◌, ◌++◌, Bool, true, false, ◌≡◌, refl, arith}
use gojump.Prelude.Int.{ℤ}
use gojump.Model.Expire.{ExpireInfo, is_expired}
use gojump.Proxy.Bridge.{Event, tick, State, Next, going, ended, panicked, unix, turn, bridge}

pub is_over : Next → Bool
is_over (going s) = false
is_over (ended s) = true
is_over (panicked s) = true

module _ (max_idle_time : ℤ) (info : ExpireInfo) where
  turn-tick_over :
      (s : State) (now : ℕ)
      → is_expired info (unix now) ≡ true
      → is_over (turn max_idle_time info s tick now) ≡ true
  unfolding turn is_over
  turn-tick_over s now h = ground arith

  -- A permission that has expired ends the bridge at the next tick of its clock, whatever crossed it
  -- before and however active it is.
  pub bridge-expired :
      (events : List (Event × ℕ)) (s : State) (now : ℕ)
      → is_expired info (unix now) ≡ true
      → is_over (bridge max_idle_time info s (events ++ ((tick, now) ∷ []))) ≡ true
  unfolding bridge is_over
  bridge-expired [] s now h = ground (arith, turn-tick_over s now h)
  bridge-expired ((ev, at) ∷ events) s now h =
      let again : (t : State)
          → is_over (bridge max_idle_time info t (events ++ ((tick, now) ∷ []))) ≡ true =
        λ t. bridge-expired events t now h in
      let rest = events ++ ((tick, now) ∷ []) in
      elim (turn max_idle_time info s ev at)
        as (λ n.
          is_over (elim n [
            | going t ↦ bridge max_idle_time info t rest
            | ended t ↦ ended t
            | panicked t ↦ panicked t
          ])
          ≡ true) [ going t ↦ again t | ended t ↦ refl | panicked t ↦ refl ]
