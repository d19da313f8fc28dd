-- ===== src/Proxy/Bridge/Forward.antt =====
-- What crosses the bridge.
use gojump.Prelude.{
  ℕ, Str, List, [], ◌∷◌, ◌++◌, none, some, ◌≡◌, refl, sym, ap, ◌∙◌, arith, append-nil, append_assoc,
}
use gojump.Prelude.Int.{ℤ}
use gojump.Model.Expire.{ExpireInfo}
use gojump.Proxy.Bridge.{
  Event, tick, done, keep_alive, user_done, exit_signal, win, srv_chan, user_chan, State, Next,
  going, ended, panicked, touch, turn, bridge,
}
use gojump.Proxy.Bridge.Recording.{state_of}

-- What the server and the user have sent, in order.
pub from_server : List (Event × ℕ) → List Str
from_server [] = []
from_server ((srv_chan (some p), now) ∷ events) = p ∷ from_server events
from_server (x ∷ events) = from_server events

pub from_user : List (Event × ℕ) → List Str
from_user [] = []
from_user ((user_chan (some p), now) ∷ events) = p ∷ from_user events
from_user (x ∷ events) = from_user events

module _ (max_idle_time : ℤ) (info : ExpireInfo) where
  turn-forwards :
      (s t : State) (ev : Event) (now : ℕ)
      → turn max_idle_time info s ev now ≡ going t
      → (t.to_user ≡ s.to_user ++ from_server ((ev, now) ∷ []))
        × (t.to_server ≡ s.to_server ++ from_user ((ev, now) ∷ []))
  unfolding turn touch from_server from_user
  turn-forwards s t tick now h = ground (arith, append-nil s.to_user, append-nil s.to_server)
  turn-forwards s t done now h = ground (arith, append-nil s.to_user, append-nil s.to_server)
  turn-forwards s t (win none) now h = ground (arith, append-nil s.to_user, append-nil s.to_server)
  turn-forwards s t (win (some w)) now h =
      ground (arith, append-nil s.to_user, append-nil s.to_server)
  turn-forwards s t (srv_chan none) now h =
      ground (arith, append-nil s.to_user, append-nil s.to_server)
  turn-forwards s t (srv_chan (some p)) now h =
      ground (arith, append-nil s.to_user, append-nil s.to_server)
  turn-forwards s t (user_chan none) now h =
      ground (arith, append-nil s.to_user, append-nil s.to_server)
  turn-forwards s t (user_chan (some p)) now h =
      ground (arith, append-nil s.to_user, append-nil s.to_server)
  turn-forwards s t keep_alive now h = ground (arith, append-nil s.to_user, append-nil s.to_server)
  turn-forwards s t user_done now h = ground (arith, append-nil s.to_user, append-nil s.to_server)
  turn-forwards s t exit_signal now h = ground (arith, append-nil s.to_user, append-nil s.to_server)

from_server-cons :
    (ev : Event) (now : ℕ) (events : List (Event × ℕ))
    → from_server ((ev, now) ∷ events) ≡ from_server ((ev, now) ∷ []) ++ from_server events
unfolding from_server
from_server-cons tick now events = refl
from_server-cons done now events = refl
from_server-cons (win w) now events = refl
from_server-cons (srv_chan none) now events = refl
from_server-cons (srv_chan (some p)) now events = refl
from_server-cons (user_chan p) now events = refl
from_server-cons keep_alive now events = refl
from_server-cons user_done now events = refl
from_server-cons exit_signal now events = refl

from_user-cons :
    (ev : Event) (now : ℕ) (events : List (Event × ℕ))
    → from_user ((ev, now) ∷ events) ≡ from_user ((ev, now) ∷ []) ++ from_user events
unfolding from_user
from_user-cons tick now events = refl
from_user-cons done now events = refl
from_user-cons (win w) now events = refl
from_user-cons (srv_chan p) now events = refl
from_user-cons (user_chan none) now events = refl
from_user-cons (user_chan (some p)) now events = refl
from_user-cons keep_alive now events = refl
from_user-cons user_done now events = refl
from_user-cons exit_signal now events = refl

module _ (max_idle_time : ℤ) (info : ExpireInfo) where
  -- While the bridge stands, everything that the server has sent has gone to the user and everything
  -- that the user has sent has gone to the server, each in order and once.
  pub bridge-forwards :
      (events : List (Event × ℕ)) (s t : State)
      → bridge max_idle_time info s events ≡ going t
      → (t.to_user ≡ s.to_user ++ from_server events)
        × (t.to_server ≡ s.to_server ++ from_user events)
  unfolding bridge from_server from_user state_of
  bridge-forwards [] s t h =
      let same : t ≡ s = sym (ap state_of h) in
      (
        ap (λ x. x.to_user) same ∙ sym (append-nil s.to_user),
        ap (λ x. x.to_server) same ∙ sym (append-nil s.to_server),
      )
  bridge-forwards ((ev, now) ∷ events) s t h =
      split (λ u. bridge-forwards events u t) (turn max_idle_time info s ev now) refl
    where
      split :
          ((u : State)
            → bridge max_idle_time info u events ≡ going t
            → (t.to_user ≡ u.to_user ++ from_server events)
              × (t.to_server ≡ u.to_server ++ from_user events))
          → (n : Next) → turn max_idle_time info s ev now ≡ n
          → (t.to_user ≡ s.to_user ++ from_server ((ev, now) ∷ events))
            × (t.to_server ≡ s.to_server ++ from_user ((ev, now) ∷ events))
      split again (going u) q =
          let (a, b) = turn-forwards max_idle_time info s u ev now q in
          let (c, d) = again u (ground arith) in
          ground (
            arith,
            from_server-cons ev now events,
            from_user-cons ev now events,
            append_assoc s.to_user (from_server ((ev, now) ∷ [])) (from_server events),
            append_assoc s.to_server (from_user ((ev, now) ∷ [])) (from_user events),
          )
      split again (ended u) q = absurd (ground arith)
      split again (panicked u) q = absurd (ground arith)
