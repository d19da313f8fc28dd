-- ===== src/Core/Tickets.antt =====
-- The login tickets of pkg/core/auth.go and the states of pkg/model/ticket.go. `date` is the
-- formatted time and `ticket_id` the fresh UUID of the call.
pub mod Sql
pub mod Laws
use gojump.Prelude.{
  Str, List, [], ◌∷◌, Bool, true, false, not, Option, none, some, if◌then◌else◌, codes,
}
use gojump.Model.{LoginTicket, TicketState, AssetLoginTicketInfo}
use gojump.Store.{Engine, Error, text, ticket, query_into, query_texts}
use gojump.Core.{Core}

abbrev pub ticket_open : Str
ticket_open = codes "pending"

abbrev pub ticket_approved : Str
ticket_approved = codes "approved"

abbrev pub ticket_rejected : Str
ticket_rejected = codes "rejected"

abbrev pub ticket_closed : Str
ticket_closed = codes "closed"

abbrev no_info : AssetLoginTicketInfo
no_info = record { ticket_id = []; need_confirm = false; reviewers = [] }

module _ (e : Engine) where
  unfoldable pub get_reviewers : e.Db → List Str × Option Error
  get_reviewers db =
      query_texts e db "SELECT username from USER WHERE role = ?" (text (codes "admin") ∷ [])

  -- Whether the login has to be confirmed; where the database says nothing, it has.
  unfoldable pub needs_confirm : e.Db → Str → Str → Bool × Option Error
  needs_confirm db user_id asset_id =
      query_into e e.scan_bool true db
        "SELECT needconfirm FROM ASSETUSERINFO WHERE userid = ? and assetid = ?"
        (text user_id ∷ text asset_id ∷ [])

  -- The insert of CheckIfNeedAssetLoginConfirm and the query behind it.
  open_ticket : Core e.Db → LoginTicket → Core e.Db × AssetLoginTicketInfo × Option Error
  open_ticket c t =
      let (db', err) = e.exec c.db "INSERT INTO LOGINTICKET VALUES ?" (ticket t ∷ []) in
      let c' : Core e.Db = record c { db = db' } in
      elim err [
        | some x ↦ (c', no_info, some x)
        | none ↦
            let (reviewers, err2) = get_reviewers db' in
            elim err2 [
              | some x ↦ (c', no_info, some x)
              | none ↦ (
                c',
                record { ticket_id = t.ticket_id; need_confirm = true; reviewers = reviewers },
                none,
              )
            ]
      ]

  unfoldable pub check_if_need_asset_login_confirm :
      Core e.Db
      → (user_id username asset_id asset_name sys_username : Str) → (ticket_id date : Str)
      → Core e.Db × AssetLoginTicketInfo × Option Error
  unfolding open_ticket needs_confirm
  check_if_need_asset_login_confirm c user_id username asset_id asset_name sys_username ticket_id
        date =
      let (need, err) = needs_confirm c.db user_id asset_id in
      elim err [
        | some x ↦ (c, no_info, some x)
        | none ↦
            if not need
            then (c, no_info, none)
            else open_ticket c (record {
              ticket_id = ticket_id;
              state = ticket_open;
              approver = [];
              application_date = date;
              approve_date = [];
              username = username;
              asset_name = asset_name;
              sys_username = sys_username;
            })
      ]

  unfoldable pub check_confirm_status_by_request_info : e.Db → Str → TicketState × Option Error
  check_confirm_status_by_request_info db ticket_id =
      let (found, err) =
        query_into e e.scan_two ([], []) db
          "SELECT approver, state FROM LOGINTICKET where ticketid = ?" (text ticket_id ∷ []) in
      elim err [
        | some x ↦ (record { approver = []; state = codes "error" }, some x)
        | none ↦ (record { approver = found.0; state = found.1 }, none)
      ]

  unfoldable pub update_ticket_state : e.Db → Str → Str → Str → Str → e.Db × Option Error
  update_ticket_state db ticket_id state user date =
      e.exec db
        "UPDATE LOGINTICKET SET state = ?, approver = ?, approvedate = ? WHERE ticketid = ? AND state = ?"
        (text state ∷ text user ∷ text date ∷ text ticket_id ∷ text ticket_open ∷ [])

  unfoldable pub cancel_confirm_by_request_info : e.Db → Str → Str → e.Db × Option Error
  unfolding update_ticket_state
  cancel_confirm_by_request_info db ticket_id date =
      update_ticket_state db ticket_id ticket_closed [] date
