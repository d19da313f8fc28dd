-- ===== src/Proxy/Server/Flow/Confirmed.antt =====
-- When checkLoginConfirm of pkg/proxy lets a login through, said of the database alone.
use gojump.Prelude.{
  Str, List, [], ◌∷◌, Bool, true, false, Option, none, some, ◌≡◌, ◌↔◌, refl, ap, arith, ◌⊎◌,
  Option-cases, inl, inr,
}
use gojump.Model.{LoginTicket}
use gojump.Store.{Engine, Error, ticket}
use gojump.Core.Tickets.{
  ticket_open, needs_confirm, get_reviewers, check_if_need_asset_login_confirm,
}
use gojump.Auth.Confirm.{
  Status, approve, reject, cancel, Event, LoginConfirmService, check_is_need_login_confirm,
  wait_confirm_finish,
}
use gojump.Auth.Confirm.Approved.{IsApproved, wait_approved, approved_wait}
use gojump.Proxy.Server.{Server}
use gojump.Proxy.Server.Flow.{Shared, approved, check_login_confirm}

-- The ticket of a login.
abbrev pub ticket_of : Server → (fresh_id date : Str) → LoginTicket
ticket_of s fresh_id date = record {
  ticket_id = fresh_id;
  state = ticket_open;
  approver = [];
  application_date = date;
  approve_date = [];
  username = s.conn_opts.user.username;
  asset_name = s.conn_opts.asset.name;
  sys_username = s.conn_opts.system_user.username;
}

approved_only : (status : Status) → approved status ≡ true → status ≡ approve
unfolding approved
approved_only approve h = refl
approved_only reject h = cc
approved_only cancel h = cc

module _ (e : Engine) where
  abbrev pub stored : e.Db → LoginTicket → e.Db × Option Error
  stored db t = e.exec db "INSERT INTO LOGINTICKET VALUES ?" (ticket t ∷ [])

  -- The database asks for no confirmation of the user's logins to the asset, or it asks for one and
  -- the ticket of this login was stored and then approved.
  pub data IsConfirmed (db : e.Db) (s : Server) (fresh_id date : Str) (events : List (Event e.Db))
      : Type 0 where
    unneeded :
        needs_confirm e db s.conn_opts.user.id s.conn_opts.asset.id ≡ (false, none)
        → IsConfirmed db s fresh_id date events
    confirmed :
        needs_confirm e db s.conn_opts.user.id s.conn_opts.asset.id ≡ (true, none)
        → (stored db (ticket_of s fresh_id date)).1 ≡ none
        → (get_reviewers e (stored db (ticket_of s fresh_id date)).0).1 ≡ none
        → IsApproved e fresh_id events
        → IsConfirmed db s fresh_id date events

  needs_cases :
      (db : e.Db) (user_id asset_id : Str)
      → (needs_confirm e db user_id asset_id ≡ (false, none))
        ⊎ ((needs_confirm e db user_id asset_id ≡ (true, none))
            ⊎ ((x : Error) × ((needs_confirm e db user_id asset_id).1 ≡ some x)))
  needs_cases db user_id asset_id = answer (needs_confirm e db user_id asset_id) refl
    where
      answer :
          (r : Bool × Option Error)
          → needs_confirm e db user_id asset_id ≡ r
          → (needs_confirm e db user_id asset_id ≡ (false, none))
            ⊎ ((needs_confirm e db user_id asset_id ≡ (true, none))
                ⊎ ((x : Error) × ((needs_confirm e db user_id asset_id).1 ≡ some x)))
      answer (b, some x) q = inr (inr (x, ap (λ p. p.1) q))
      answer (true, none) q = inr (inl q)
      answer (false, none) q = inl q

  -- The service that waits.
  abbrev service : e.Db → Server → (fresh_id date : Str) → LoginConfirmService
  service db s fresh_id date = record {
    user_id = s.conn_opts.user.id;
    username = s.conn_opts.user.username;
    system_username = s.conn_opts.system_user.username;
    asset_id = s.conn_opts.asset.id;
    asset_name = s.conn_opts.asset.name;
    reviewers = (get_reviewers e (stored db (ticket_of s fresh_id date)).0).0;
    approver = [];
    ticket_id = fresh_id;
  }

  waits :
      (w : Shared e) (s : Server) (fresh_id date : Str) (events : List (Event e.Db))
      → needs_confirm e w.core.db s.conn_opts.user.id s.conn_opts.asset.id ≡ (true, none)
      → (stored w.core.db (ticket_of s fresh_id date)).1 ≡ none
      → (get_reviewers e (stored w.core.db (ticket_of s fresh_id date)).0).1 ≡ none
      → (check_login_confirm e w s fresh_id date events).1 ≡ some true
      → IsApproved e fresh_id events
  unfolding check_login_confirm check_is_need_login_confirm check_if_need_asset_login_confirm
  waits w s fresh_id date events n t r h =
      let srv = service w.core.db s fresh_id date in
      elim (Option-cases (wait_confirm_finish e srv events)) [
        | inl q ↦ absurd (ground (arith, n, t, r, q, h))
        | inr (answer, q) ↦
            wait_approved e srv events answer q
              (approved_only answer.0 (ground (arith, n, t, r, q, h)))
      ]

  confirm-IsConfirmed :
      (w : Shared e) (s : Server) (fresh_id date : Str) (events : List (Event e.Db))
      → (check_login_confirm e w s fresh_id date events).1 ≡ some true
      → IsConfirmed w.core.db s fresh_id date events
  unfolding check_login_confirm check_is_need_login_confirm check_if_need_asset_login_confirm
  confirm-IsConfirmed w s fresh_id date events h =
      elim (needs_cases w.core.db s.conn_opts.user.id s.conn_opts.asset.id) [
        | inl n ↦ unneeded n
        | inr (inr (x, n)) ↦ absurd (ground (arith, n, h))
        | inr (inl n) ↦ elim (Option-cases (stored w.core.db (ticket_of s fresh_id date)).1) [
          | inr (x, t) ↦ absurd (ground (arith, n, t, h))
          | inl t ↦
              elim (Option-cases
                (get_reviewers e (stored w.core.db (ticket_of s fresh_id date)).0).1) [
                  | inr (x, r) ↦ absurd (ground (arith, n, t, r, h))
                  | inl r ↦ confirmed n t r (waits w s fresh_id date events n t r h)
                ]
        ]
      ]

  IsConfirmed-confirm :
      (w : Shared e) (s : Server) (fresh_id date : Str) (events : List (Event e.Db))
      → IsConfirmed w.core.db s fresh_id date events
      → (check_login_confirm e w s fresh_id date events).1 ≡ some true
  unfolding check_login_confirm check_is_need_login_confirm check_if_need_asset_login_confirm
  IsConfirmed-confirm w s fresh_id date events (unneeded n) = ground (arith, n)
  IsConfirmed-confirm w s fresh_id date events (confirmed n t r a) =
      let (s', q) = approved_wait e (service w.core.db s fresh_id date) events a in
      ground (arith, n, t, r, q)

  -- checkLoginConfirm lets a login through exactly when the database asks for no confirmation of the
  -- user's logins to the asset, or it asks for one, the ticket of this login was stored, its reviewers
  -- were read, and the first tick that reads a decision reads the ticket as approved.
  pub confirm_iff :
      (w : Shared e) (s : Server) (fresh_id date : Str) (events : List (Event e.Db))
      → ((check_login_confirm e w s fresh_id date events).1 ≡ some true)
        ↔ IsConfirmed w.core.db s fresh_id date events
  confirm_iff w s fresh_id date events =
      (confirm-IsConfirmed w s fresh_id date events, IsConfirmed-confirm w s fresh_id date events)
