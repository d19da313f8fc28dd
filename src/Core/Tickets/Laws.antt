-- ===== src/Core/Tickets/Laws.antt =====
-- Decisions on a ticket, and what a waiting client reads of them.
use gojump.Prelude.{
  ℕ, zero, suc, Str, String, List, [], ◌∷◌, map, none, some, str_eq, eq_iff, keep, get_elem?, ◌≡◌,
  ◌≢◌, refl, ap, ◌∙◌, arith,
}
use gojump.Model.{LoginTicket}
use gojump.Store.{Engine, query_into, rows, text}
use gojump.Core.Tickets.{
  ticket_open, ticket_closed, update_ticket_state, check_confirm_status_by_request_info,
  cancel_confirm_by_request_info,
}
use gojump.Core.Tickets.Sql.{TicketSql, updated}

pub get_elem?-map {ℓ} :
    {A : Type ℓ} (f : A → A) (l : List A) (i : ℕ) (a : A)
    → get_elem? l i ≡ some a
    → get_elem? (map f l) i ≡ some (f a)
get_elem?-map f [] i a h = cc
get_elem?-map f (x ∷ xs) zero a h = ground arith
get_elem?-map f (x ∷ xs) (suc i) a h = get_elem?-map f xs i a h

updated_decided :
    (state user date id : Str) (t : LoginTicket)
    → t.state ≢ ticket_open
    → updated state user date id ticket_open t ≡ t
updated_decided state user date id t h = ground (arith, eq_iff t.state ticket_open)

updated_twice :
    (s1 u1 d1 s2 u2 d2 id : Str) (t : LoginTicket)
    → s1 ≢ ticket_open
    → updated s2 u2 d2 id ticket_open (updated s1 u1 d1 id ticket_open t)
      ≡ updated s1 u1 d1 id ticket_open t
updated_twice s1 u1 d1 s2 u2 d2 id t h =
    ground (arith, eq_iff s1 ticket_open, eq_iff t.ticket_id id)

map_twice {ℓ} :
    {A : Type ℓ} (f g : A → A) (l : List A) → ((a : A) → g (f a) ≡ f a) → map g (map f l) ≡ map f l
map_twice f g [] h = refl
map_twice f g (x ∷ xs) h = cc (h x, map_twice f g xs h)

abbrev status_sql : String
status_sql = "SELECT approver, state FROM LOGINTICKET where ticketid = ?"

module _ (e : Engine) (sql : TicketSql e) where
  open sql use {tickets, status_doc, scan_status, select_status, update}

  -- Whatever decision arrives, a ticket that is no longer pending keeps its state, its approver and
  -- its date.
  pub update-decided :
      (db : e.Db) (id state user date : Str) (i : ℕ) (t : LoginTicket)
      → get_elem? (tickets db) i ≡ some t
      → t.state ≢ ticket_open
      → get_elem? (tickets (update_ticket_state e db id state user date).0) i ≡ some t
  unfolding update_ticket_state
  update-decided db id state user date i t at decided = ground (
    arith,
    update db state user date id ticket_open,
    get_elem?-map (updated state user date id ticket_open) (tickets db) i t,
    updated_decided state user date id t,
  )

  -- Of two decisions on a ticket the first one counts: once a statement that sets another state
  -- than "pending" succeeded, a second decision leaves every ticket as the first left it, whether
  -- or not its statement succeeds.
  pub first_decision_wins :
      (db : e.Db) (id s1 u1 d1 s2 u2 d2 : Str)
      → s1 ≢ ticket_open
      → (update_ticket_state e db id s1 u1 d1).1 ≡ none
      → let db' = (update_ticket_state e db id s1 u1 d1).0 in
        tickets (update_ticket_state e db' id s2 u2 d2).0 ≡ tickets db'
  unfolding update_ticket_state
  first_decision_wins db id s1 u1 d1 s2 u2 d2 h done =
      let db' = (update_ticket_state e db id s1 u1 d1).0 in
      ground (
        arith,
        update db s1 u1 d1 id ticket_open,
        update db' s2 u2 d2 id ticket_open,
        map_twice (updated s1 u1 d1 id ticket_open) (updated s2 u2 d2 id ticket_open) (tickets db)
            (λ t. updated_twice s1 u1 d1 s2 u2 d2 id t h),
      )

  keep-updated :
      (l : List LoginTicket) (s u d id : Str)
      → keep (λ t. str_eq t.ticket_id id) (map (updated s u d id ticket_open) l)
        ≡ map (updated s u d id ticket_open) (keep (λ t. str_eq t.ticket_id id) l)
  keep-updated [] s u d id = refl
  keep-updated (t ∷ ts) s u d id = ground (arith, keep-updated ts s u d id)

  status_only :
      (db : e.Db) (id : Str) (t : LoginTicket)
      → keep (λ t. str_eq t.ticket_id id) (tickets db) ≡ t ∷ []
      → check_confirm_status_by_request_info e db id
        ≡ (record { approver = t.approver; state = t.state }, none)
  unfolding check_confirm_status_by_request_info query_into
  status_only db id t h =
      let one : e.query db status_sql (text id ∷ []) ≡ rows (status_doc t ∷ []) none =
        select_status db id ∙ ap (λ (l : List LoginTicket). rows (map status_doc l) none) h in
      ground (arith, one, scan_status t ([], []))

  -- What a waiting client reads once a decision on its ticket was stored, where the ticket is the
  -- only one of its number and was pending: the state and the approver of that decision, also when
  -- a cancellation came after it.
  pub status-update :
      (db : e.Db) (id state user date later : Str) (t : LoginTicket)
      → keep (λ t. str_eq t.ticket_id id) (tickets db) ≡ t ∷ []
      → t.ticket_id ≡ id
      → t.state ≡ ticket_open
      → state ≢ ticket_open
      → (update_ticket_state e db id state user date).1 ≡ none
      → let db' = (update_ticket_state e db id state user date).0 in
        let db'' = (cancel_confirm_by_request_info e db' id later).0 in
        (check_confirm_status_by_request_info e db' id
          ≡ (record { approver = user; state = state }, none))
        × (check_confirm_status_by_request_info e db'' id
            ≡ (record { approver = user; state = state }, none))
  unfolding cancel_confirm_by_request_info
  status-update db id state user date later t only same pending decides done =
      let db' = (update_ticket_state e db id state user date).0 in
      let db'' = (update_ticket_state e db' id ticket_closed [] later).0 in
      let t' : LoginTicket = record t { state = state; approver = user; approve_date = date } in
      let ts = map (updated state user date id ticket_open) (tickets db) in
      let now : tickets db' ≡ ts =
        unfold update_ticket_state in ground (arith, update db state user date id ticket_open) in
      let still : tickets db'' ≡ ts =
        first_decision_wins db id state user date ticket_closed [] later decides done ∙ now in
      let kept : keep (λ t. str_eq t.ticket_id id) ts ≡ t' ∷ [] =
        keep-updated (tickets db) state user date id
        ∙ ap (map (updated state user date id ticket_open)) only
        ∙ ground (arith, eq_iff t.ticket_id id, eq_iff t.state ticket_open) in
      (
        status_only db' id t' (ap (keep (λ t. str_eq t.ticket_id id)) now ∙ kept),
        status_only db'' id t' (ap (keep (λ t. str_eq t.ticket_id id)) still ∙ kept),
      )
