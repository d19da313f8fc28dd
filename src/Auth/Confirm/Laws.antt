-- ===== src/Auth/Confirm/Laws.antt =====
-- What the waiting client is told.
use gojump.Prelude.{
  In, head, tail, Str, List, [], ◌∷◌, ◌++◌, Option, none, some, str_eq, eq_iff, ◌≡◌, ◌≢◌, ◌↔◌, ◌⊎◌,
  inl, inr, refl, ap, sym, subst, ◌∙◌, arith, Option-cases, Bool-cases,
}
use mathlib.Core.Option.{some-injective}
use gojump.Model.{TicketState}
use gojump.Store.{Engine, Error}
use gojump.Core.Tickets.{
  ticket_open, ticket_approved, ticket_rejected, ticket_closed,
  check_confirm_status_by_request_info, cancel_confirm_by_request_info,
}
use gojump.Auth.Confirm.{
  Status, approve, reject, cancel, LoginConfirmService, Event, done, tick, Verdict, wait, decided,
  verdict, wait_confirm_finish,
}

-- What the state of a ticket says of the login. A closed ticket counts as a rejection.
pub data Decides : Str → Status → Type 0 where
  by_approval : Decides ticket_approved approve
  by_rejection : Decides ticket_rejected reject
  by_closing : Decides ticket_closed reject

-- A state, such as that of a pending ticket, that decides nothing.
pub record IsUndecided (state : Str) : Type 0 where
  pub not_approved : state ≢ ticket_approved
  pub not_rejected : state ≢ ticket_rejected
  pub not_closed : state ≢ ticket_closed

verdict-Decides :
    (state : Str) (status : Status) → verdict state ≡ decided status → Decides state status
unfolding verdict
verdict-Decides state status h = elim (Bool-cases (str_eq state ticket_open)) [
  | inl o ↦ absurd (ground arith)
  | inr o ↦ elim (Bool-cases (str_eq state ticket_approved)) [
    | inl a ↦
        let r : approve ≡ status = ground arith in
        subst (Decides state) r
          (subst (λ x. Decides x approve) (sym ((eq_iff state ticket_approved).0 a)) by_approval)
    | inr a ↦ elim (Bool-cases (str_eq state ticket_rejected)) [
      | inl b ↦
          let r : reject ≡ status = ground arith in
          subst (Decides state) r
            (subst (λ x. Decides x reject) (sym ((eq_iff state ticket_rejected).0 b)) by_rejection)
      | inr b ↦ elim (Bool-cases (str_eq state ticket_closed)) [
        | inl d ↦
            let r : reject ≡ status = ground arith in
            subst (Decides state) r
              (subst (λ x. Decides x reject) (sym ((eq_iff state ticket_closed).0 d)) by_closing)
        | inr d ↦ absurd (ground arith)
      ]
    ]
  ]
]

Decides-verdict :
    (state : Str) (status : Status) → Decides state status → verdict state ≡ decided status
unfolding verdict str_eq
Decides-verdict state status by_approval = refl
Decides-verdict state status by_rejection = refl
Decides-verdict state status by_closing = refl

pub Decides-approve : (state : Str) → Decides state approve → state ≡ ticket_approved
Decides-approve state by_approval = refl

verdict-IsUndecided : (state : Str) → verdict state ≡ wait → IsUndecided state
unfolding verdict str_eq
verdict-IsUndecided state h = record {
  not_approved = λ q. cc (h, q);
  not_rejected = λ q. cc (h, q);
  not_closed = λ q. cc (h, q);
}

IsUndecided-verdict : (state : Str) → IsUndecided state → verdict state ≡ wait
unfolding verdict
IsUndecided-verdict state u = ground (
  arith,
  eq_iff state ticket_approved,
  eq_iff state ticket_rejected,
  eq_iff state ticket_closed,
  u.not_approved,
  u.not_rejected,
  u.not_closed,
)

module _ (e : Engine) (s : LoginConfirmService) where
  abbrev status_at : e.Db → TicketState × Option Error
  status_at db = check_confirm_status_by_request_info e db s.ticket_id

  -- An event that settles nothing: a tick whose query failed, or found no decision.
  abbrev pub Passes : Event e.Db → Type 0
  Passes (done db date) = ⊥
  Passes (tick db) =
      ((x : Error) × ((status_at db).1 ≡ some x))
      ⊎ (((status_at db).1 ≡ none) × IsUndecided (status_at db).0.state)

  -- An event that ends the wait with the given answer.
  pub data Settles : Event e.Db → Status × LoginConfirmService × Option e.Db → Type 0 where
    by_client :
        (db : e.Db) (date : Str)
        → Settles
            (done db date)
            (cancel, s, some (cancel_confirm_by_request_info e db s.ticket_id date).0)
    by_reviewer :
        (db : e.Db) (status : Status)
        → (status_at db).1 ≡ none
        → Decides (status_at db).0.state status
        → Settles (tick db) (status, record s { approver = (status_at db).0.approver }, none)

  -- Some event settles the wait with the answer, and every event before it passes.
  pub data FirstSettles (r : Status × LoginConfirmService × Option e.Db)
      : List (Event e.Db) → Type 0 where
    now : {ev : Event e.Db} {rest : List (Event e.Db)} → Settles ev r → FirstSettles r (ev ∷ rest)
    later :
        {ev : Event e.Db} {rest : List (Event e.Db)}
        → Passes ev
        → FirstSettles r rest
        → FirstSettles r (ev ∷ rest)

  wait-Passes :
      (ev : Event e.Db) (rest : List (Event e.Db))
      → Passes ev
      → wait_confirm_finish e s (ev ∷ rest) ≡ wait_confirm_finish e s rest
  unfolding wait_confirm_finish
  wait-Passes (done db date) rest p = absurd p
  wait-Passes (tick db) rest (inl (x, h)) = ground arith
  wait-Passes (tick db) rest (inr (h, u)) =
      let v = IsUndecided-verdict (status_at db).0.state u in ground arith

  wait-Settles :
      (ev : Event e.Db) (rest : List (Event e.Db)) (r : Status × LoginConfirmService × Option e.Db)
      → Settles ev r
      → wait_confirm_finish e s (ev ∷ rest) ≡ some r
  unfolding wait_confirm_finish
  wait-Settles (done db date) rest r (by_client _ _) = refl
  wait-Settles (tick db) rest r (by_reviewer _ status h d) =
      let v = Decides-verdict (status_at db).0.state status d in ground arith

  -- Each event passes or settles.
  Event-cases :
      (ev : Event e.Db)
      → Passes ev ⊎ ((r : Status × LoginConfirmService × Option e.Db) × Settles ev r)
  Event-cases (done db date) = inr (_, by_client db date)
  Event-cases (tick db) = elim (Option-cases (status_at db).1) [
    | inr (x, h) ↦ inl (inl (x, h))
    | inl h ↦ split (verdict (status_at db).0.state) refl h
  ]
    where
      split :
          (v : Verdict)
          → verdict (status_at db).0.state ≡ v
          → (status_at db).1 ≡ none
          → Passes (tick db)
            ⊎ ((r : Status × LoginConfirmService × Option e.Db) × Settles (tick db) r)
      split wait v h = inl (inr (h, verdict-IsUndecided (status_at db).0.state v))
      split (decided status) v h =
          inr (_, by_reviewer db status h (verdict-Decides (status_at db).0.state status v))

  wait_sound :
      (events : List (Event e.Db)) (r : Status × LoginConfirmService × Option e.Db)
      → wait_confirm_finish e s events ≡ some r
      → FirstSettles r events
  unfolding wait_confirm_finish
  wait_sound [] r h = cc
  wait_sound (ev ∷ rest) r h = elim (Event-cases ev) [
    | inl p ↦ later p (wait_sound rest r (sym (wait-Passes ev rest p) ∙ h))
    | inr (r', x) ↦
        let same : r' ≡ r = some-injective r' r (sym (wait-Settles ev rest r' x) ∙ h) in
        now (subst (Settles ev) same x)
  ]

  wait_complete :
      (events : List (Event e.Db)) (r : Status × LoginConfirmService × Option e.Db)
      → FirstSettles r events
      → wait_confirm_finish e s events ≡ some r
  wait_complete [] r f = elim f [ ]
  wait_complete (ev ∷ rest) r (now x) = wait-Settles ev rest r x
  wait_complete (ev ∷ rest) r (later p f) = wait-Passes ev rest p ∙ wait_complete rest r f

  -- The wait ends with an answer exactly when some event gives that answer and every event before it
  -- was a tick whose query failed or found the ticket undecided. A tick answers as the database then
  -- holds the ticket: an approved one approves, a rejected or closed one rejects, both with the
  -- approver that the ticket names. The client's end answers with a cancellation.
  pub wait_confirm_finish_iff :
      (events : List (Event e.Db)) (r : Status × LoginConfirmService × Option e.Db)
      → (wait_confirm_finish e s events ≡ some r) ↔ FirstSettles r events
  wait_confirm_finish_iff events r = (wait_sound events r, wait_complete events r)

  -- The wait goes on only as long as nothing has settled it: once the client ends, or a tick reads a
  -- decision, the loop has returned.
  pub wait_returns :
      (before after : List (Event e.Db)) (ev : Event e.Db)
      (r : Status × LoginConfirmService × Option e.Db)
      → Settles ev r
      → wait_confirm_finish e s (before ++ (ev ∷ after)) ≢ none
  wait_returns [] after ev r x h = cc (wait-Settles ev after r x)
  wait_returns (b ∷ bs) after ev r x h = elim (Event-cases b) [
    | inl p ↦ wait_returns bs after ev r x (sym (wait-Passes b (bs ++ (ev ∷ after)) p) ∙ h)
    | inr (r', y) ↦ cc (wait-Settles b (bs ++ (ev ∷ after)) r' y)
  ]

  -- Only an approval lets the login through: an answer `approve` was read at one of the ticks, from
  -- a query that succeeded and found the ticket approved, names the approver that was read there,
  -- and leaves the database as it is.
  pub approve_sound :
      (events : List (Event e.Db)) (s' : LoginConfirmService) (db' : Option e.Db)
      → wait_confirm_finish e s events ≡ some (approve, s', db')
      → (db : e.Db) × In (tick db) events
        × (status_at db ≡ (record { approver = s'.approver; state = ticket_approved }, none))
        × (db' ≡ none)
  approve_sound events s' db' h = find events (wait_sound events (approve, s', db') h)
    where
      settled :
          (ev : Event e.Db) (r : Status × LoginConfirmService × Option e.Db)
          → Settles ev r
          → r ≡ (approve, s', db')
          → (db : e.Db) × (ev ≡ tick db)
            × (status_at db ≡ (record { approver = s'.approver; state = ticket_approved }, none))
            × (db' ≡ none)
      settled (done db date) r (by_client _ _) q = cc
      settled (tick db) r (by_reviewer _ status n d) q =
          let same : status ≡ approve = ap (λ x. x.0) q in
          let state = Decides-approve (status_at db).0.state (subst (Decides _) same d) in
          (db, refl, ground arith, ground arith)

      find :
          (evs : List (Event e.Db))
          → FirstSettles (approve, s', db') evs
          → (db : e.Db) × In (tick db) evs
            × (status_at db ≡ (record { approver = s'.approver; state = ticket_approved }, none))
            × (db' ≡ none)
      find [] f = elim f [ ]
      find (ev ∷ rest) (now x) =
          let (db, same, read, kept) = settled ev (approve, s', db') x refl in
          (db, subst (λ y. In y (ev ∷ rest)) same head, read, kept)
      find (ev ∷ rest) (later p f) =
          let (db, i, read, kept) = find rest f in (db, tail i, read, kept)
