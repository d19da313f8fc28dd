-- ===== src/Proxy/Bridge/Recording.antt =====
-- What is recorded of the bridge.
use gojump.Prelude.{
  ℕ, suc, ◌+◌, ◌*◌, ltb, List, [], ◌∷◌, ◌++◌, none, some, ◌≡◌, refl, sym, subst, arith, ◌⊎◌, inl,
  inr, Bool-cases,
}
use gojump.Prelude.Int.{ℤ}
use gojump.Model.Expire.{ExpireInfo, is_expired}
use gojump.Proxy.Bridge.{
  Event, tick, done, keep_alive, user_done, exit_signal, win, srv_chan, user_chan, State, Next,
  going, ended, panicked, after_idle, unix, second, touch, turn, bridge,
}
use gojump.Proxy.Bridge.Record.{IsRecorded, record_row-kept}

unfoldable pub state_of : Next → State
state_of (going s) = s
state_of (ended s) = s
state_of (panicked s) = s

module _ (max_idle_time : ℤ) (info : ExpireInfo) where
  -- A turn keeps the recording true to what the user was sent, and does not panic.
  turn-IsRecorded :
      (s : State) (ev : Event) (now : ℕ)
      → IsRecorded s.recorder s.to_user
      → ((t : State) × (turn max_idle_time info s ev now ≡ going t)
          × IsRecorded t.recorder t.to_user)
        ⊎ (turn max_idle_time info s ev now ≡ ended s)
  unfolding turn touch
  turn-IsRecorded s tick now h =
      elim (Bool-cases (after_idle max_idle_time s.last_active_time now)) [
        | inl a ↦ inr (ground arith)
        | inr a ↦ elim (Bool-cases (is_expired info (unix now))) [
          | inl x ↦ inr (ground arith)
          | inr x ↦ inl (s, ground arith, h)
        ]
      ]
  turn-IsRecorded s done now h = inr refl
  turn-IsRecorded s (win none) now h = inr refl
  turn-IsRecorded s (win (some w)) now h = inl (_, refl, h)
  turn-IsRecorded s (srv_chan none) now h = inr refl
  turn-IsRecorded s (srv_chan (some p)) now h =
      let (r, q, k) = record_row-kept s.recorder s.to_user p h in
      inl (touch (record s { recorder = r; to_user = s.to_user ++ (p ∷ []) }) now, ground arith, k)
  turn-IsRecorded s (user_chan none) now h = inr refl
  turn-IsRecorded s (user_chan (some p)) now h = inl (_, refl, h)
  turn-IsRecorded s keep_alive now h =
      elim (Bool-cases (ltb (s.last_active_time + 60 * second) now)) [
        | inl a ↦ inl (record s { keep_alives = suc s.keep_alives }, ground arith, h)
        | inr a ↦ inl (s, ground arith, h)
      ]
  turn-IsRecorded s user_done now h = inr refl
  turn-IsRecorded s exit_signal now h = inr refl

  bridge-going :
      (s t : State) (ev : Event) (now : ℕ) (events : List (Event × ℕ))
      → turn max_idle_time info s ev now ≡ going t
      → bridge max_idle_time info s ((ev, now) ∷ events) ≡ bridge max_idle_time info t events
  unfolding bridge
  bridge-going s t ev now events h = ground arith

  bridge-ended :
      (s t : State) (ev : Event) (now : ℕ) (events : List (Event × ℕ))
      → turn max_idle_time info s ev now ≡ ended t
      → bridge max_idle_time info s ((ev, now) ∷ events) ≡ ended t
  unfolding bridge
  bridge-ended s t ev now events h = ground arith

  -- Whatever happens on the bridge, a recording that agreed with what the user was sent agrees with
  -- it afterwards: the same texts in the same order, none lost and none added, empty ones aside, and
  -- the header written exactly if there is a row.
  pub bridge-IsRecorded :
      (events : List (Event × ℕ)) (s : State)
      → IsRecorded s.recorder s.to_user
      → let t = state_of (bridge max_idle_time info s events) in IsRecorded t.recorder t.to_user
  unfolding bridge state_of
  bridge-IsRecorded [] s h = h
  bridge-IsRecorded ((ev, now) ∷ events) s h = elim (turn-IsRecorded s ev now h) [
    | inl (t, q, k) ↦
        subst Kept (sym (bridge-going s t ev now events q)) (bridge-IsRecorded events t k)
    | inr q ↦ subst Kept (sym (bridge-ended s s ev now events q)) h
  ]
    where
      Kept : Next → Type 0
      Kept n = IsRecorded (state_of n).recorder (state_of n).to_user
