-- ===== src/Core/Tickets/Sql.antt =====
-- What the program relies on of the database: the meaning of its two statements on tickets.
-- A statement that fails changes no ticket.
use gojump.Prelude.{Str, List, [], ◌∷◌, map, ◌&&◌, none, some, if◌then◌else◌, str_eq, keep, ◌≡◌}
use gojump.Model.{LoginTicket}
use gojump.Store.{Engine, text, rows}

-- UPDATE … SET state, approver, approvedate WHERE ticketid = id AND state = old, on one row.
abbrev pub updated : (state user date id old : Str) → LoginTicket → LoginTicket
updated state user date id old t =
    if str_eq t.ticket_id id && str_eq t.state old
    then record t { state = state; approver = user; approve_date = date }
    else t

pub record TicketSql (e : Engine) : Type 0 where
  pub tickets : e.Db → List LoginTicket
  -- The document of a row of `SELECT approver, state`.
  pub status_doc : LoginTicket → e.Doc
  pub scan_status :
      (t : LoginTicket) (m : Str × Str)
      → e.scan_two (status_doc t) m ≡ ((t.approver, t.state), none)
  pub select_status :
      (db : e.Db) (id : Str)
      → e.query db "SELECT approver, state FROM LOGINTICKET where ticketid = ?" (text id ∷ [])
        ≡ rows (map status_doc (keep (λ t. str_eq t.ticket_id id) (tickets db))) none
  pub update :
      (db : e.Db) (state user date id old : Str)
      → let (db', err) =
          e.exec db
            "UPDATE LOGINTICKET SET state = ?, approver = ?, approvedate = ? WHERE ticketid = ? AND state = ?"
            (text state ∷ text user ∷ text date ∷ text id ∷ text old ∷ []) in
        tickets db' ≡ elim err [
          | none ↦ map (updated state user date id old) (tickets db)
          | some x ↦ tickets db
        ]
