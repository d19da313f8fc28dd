-- ===== src/Handler/Idle/Laws.antt =====
-- When checkMaxIdleTime of pkg/handler/interactive.go closes a session.
use gojump.Prelude.{
  ℕ, List, [], ◌∷◌, Bool, true, false, any, map, leb, ◌+◌, ◌≤◌, ◌≡◌, ◌↔◌, refl, arith, Bool-cases,
  inl, inr,
}
use gojump.Handler.Idle.{Watch, Event, clock, check, done, turn, loop}

module _ (max_idle_time : ℕ) where
  abbrev late : ℕ → List ℕ → Bool
  late tick times = any (λ u. leb tick u) times

  closes_grow : (s : Watch) (es : List Event) → s.closes ≤ (loop max_idle_time s es).closes
  unfolding loop turn
  closes_grow s [] = omega arith
  closes_grow s (clock now ∷ es) = ground (arith, closes_grow (turn max_idle_time s (clock now)) es)
  closes_grow s (check now true ∷ es) =
      ground (arith, closes_grow (turn max_idle_time s (check now true)) es)
  closes_grow s (check now false ∷ es) =
      ground (arith, closes_grow (turn max_idle_time s (check now false)) es)
  closes_grow s (done ∷ es) = omega arith

  closes_iff :
      (s : Watch) (times : List ℕ)
      → s.check_status ≡ true
      → ((loop max_idle_time s (map clock times)).closes ≡ s.closes) ↔ (late s.tick times ≡ false)
  unfolding loop turn
  closes_iff s [] on = (λ h. refl, λ h. refl)
  closes_iff s (u ∷ us) on = elim (Bool-cases (leb s.tick u)) [
    | inl b ↦ ground (arith, b, on, closes_grow (turn max_idle_time s (clock u)) (map clock us))
    | inr b ↦ ground (arith, b, on, closes_iff s us on)
  ]

  closes_off :
      (s : Watch) (times : List ℕ)
      → s.check_status ≡ false
      → (loop max_idle_time s (map clock times)).closes ≡ s.closes
  unfolding loop turn
  closes_off s [] off = refl
  closes_off s (u ∷ us) off = ground (arith, off, closes_off (turn max_idle_time s (clock u)) us)

  -- While nothing but the clock is seen after a switch of the check: if it was switched on, the
  -- session is closed if and only if the clock is seen at a time that is at least the longest idle
  -- time later, and if it was switched off, the session is not closed.
  pub idle_closed_iff :
      (s : Watch) (now : ℕ) (times : List ℕ)
      → (((loop max_idle_time s (check now true ∷ map clock times)).closes ≡ s.closes)
          ↔ (any (λ u. leb (now + max_idle_time) u) times ≡ false))
        × ((loop max_idle_time s (check now false ∷ map clock times)).closes ≡ s.closes)
  unfolding loop turn
  idle_closed_iff s now times = (
    closes_iff (turn max_idle_time s (check now true)) times refl,
    closes_off (turn max_idle_time s (check now false)) times refl,
  )
