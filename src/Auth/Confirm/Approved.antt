-- ===== src/Auth/Confirm/Approved.antt =====
-- When the wait of pkg/auth/loginConfirm.go ends with an approval, and when no confirmation is
-- needed.
use gojump.Prelude.{Str, List, [], ◌∷◌, Option, none, some, ◌≡◌, inl, inr, sym, subst}
use gojump.Store.{Engine, Error}
use gojump.Core.Tickets.{ticket_approved, check_confirm_status_by_request_info}
use gojump.Auth.Confirm.{
  Status, approve, LoginConfirmService, Event, done, tick, wait_confirm_finish,
}
use gojump.Auth.Confirm.Laws.{
  Decides, by_approval, Decides-approve, IsUndecided, Passes, Settles, by_reviewer, by_client,
  FirstSettles, now, later, wait_confirm_finish_iff,
}

module _ (e : Engine) (ticket_id : Str) where
  -- Some tick reads the ticket as approved, and each event before it is a tick that fails to read
  -- the ticket or reads it undecided.
  pub data IsApproved : List (Event e.Db) → Type 0 where
    read :
        (db : e.Db) (rest : List (Event e.Db))
        → (check_confirm_status_by_request_info e db ticket_id).1 ≡ none
        → (check_confirm_status_by_request_info e db ticket_id).0.state ≡ ticket_approved
        → IsApproved (tick db ∷ rest)
    unread :
        (db : e.Db) (rest : List (Event e.Db)) (x : Error)
        → (check_confirm_status_by_request_info e db ticket_id).1 ≡ some x
        → IsApproved rest
        → IsApproved (tick db ∷ rest)
    undecided :
        (db : e.Db) (rest : List (Event e.Db))
        → (check_confirm_status_by_request_info e db ticket_id).1 ≡ none
        → IsUndecided (check_confirm_status_by_request_info e db ticket_id).0.state
        → IsApproved rest
        → IsApproved (tick db ∷ rest)

module _ (e : Engine) (s : LoginConfirmService) where
  pass-IsApproved :
      (ev : Event e.Db) (rest : List (Event e.Db))
      → Passes e s ev
      → IsApproved e s.ticket_id rest
      → IsApproved e s.ticket_id (ev ∷ rest)
  pass-IsApproved (done db date) rest p a = absurd p
  pass-IsApproved (tick db) rest (inl (x, h)) a = unread db rest x h a
  pass-IsApproved (tick db) rest (inr (h, u)) a = undecided db rest h u a

  settle-IsApproved :
      (ev : Event e.Db) (rest : List (Event e.Db)) (r : Status × LoginConfirmService × Option e.Db)
      → Settles e s ev r
      → r.0 ≡ approve
      → IsApproved e s.ticket_id (ev ∷ rest)
  settle-IsApproved (done db date) rest r (by_client _ _) q = cc
  settle-IsApproved (tick db) rest r (by_reviewer _ status h d) q =
      read db rest h (Decides-approve _ (subst (Decides _) q d))

  first-IsApproved :
      (events : List (Event e.Db)) (r : Status × LoginConfirmService × Option e.Db)
      → FirstSettles e s r events
      → r.0 ≡ approve
      → IsApproved e s.ticket_id events
  first-IsApproved [] r f q = elim f [ ]
  first-IsApproved (ev ∷ rest) r (now x) q = settle-IsApproved ev rest r x q
  first-IsApproved (ev ∷ rest) r (later p f) q =
      pass-IsApproved ev rest p (first-IsApproved rest r f q)

  IsApproved-first :
      (events : List (Event e.Db))
      → IsApproved e s.ticket_id events
      → (s' : LoginConfirmService) × FirstSettles e s (approve, s', none) events
  IsApproved-first events (read db rest h q) =
      let d : Decides (check_confirm_status_by_request_info e db s.ticket_id).0.state approve =
        subst (λ x. Decides x approve) (sym q) by_approval in
      (_, now (by_reviewer db approve h d))
  IsApproved-first events (unread db rest x h a) =
      let (s', f) = IsApproved-first rest a in (s', later (inl (x, h)) f)
  IsApproved-first events (undecided db rest h u a) =
      let (s', f) = IsApproved-first rest a in (s', later (inr (h, u)) f)

  pub wait_approved :
      (events : List (Event e.Db)) (r : Status × LoginConfirmService × Option e.Db)
      → wait_confirm_finish e s events ≡ some r
      → r.0 ≡ approve
      → IsApproved e s.ticket_id events
  wait_approved events r h q =
      first-IsApproved events r ((wait_confirm_finish_iff e s events r).0 h) q

  pub approved_wait :
      (events : List (Event e.Db))
      → IsApproved e s.ticket_id events
      → (s' : LoginConfirmService) × (wait_confirm_finish e s events ≡ some (approve, s', none))
  approved_wait events a =
      let (s', f) = IsApproved-first events a in
      (s', (wait_confirm_finish_iff e s events (approve, s', none)).1 f)
