-- ===== src/Auth/Confirm.antt =====
-- pkg/auth/loginConfirm.go: a login that a reviewer has to confirm. The loop of waitConfirmFinish
-- runs over the events that its select receives: the client's context ends, or the ticker fires;
-- each comes with the database as the other sessions have left it by then.
pub mod Laws
pub mod Approved
use gojump.Prelude.{
  Str, List, [], ◌∷◌, Bool, true, false, Option, none, some, if◌then◌else◌, str_eq,
}
use gojump.Model.{TicketState}
use gojump.Store.{Engine, Error}
use gojump.Core.{Core}
use gojump.Core.Tickets.{
  ticket_open, ticket_approved, ticket_rejected, ticket_closed, check_if_need_asset_login_confirm,
  check_confirm_status_by_request_info, cancel_confirm_by_request_info,
}

pub data Status : Type 0 where
  approve reject cancel : Status

-- The user, the system user and the asset of the login, and what the service has learnt.
pub record LoginConfirmService : Type 0 where
  pub user_id : Str
  pub username : Str
  pub system_username : Str
  pub asset_id : Str
  pub asset_name : Str
  pub reviewers : List Str
  pub approver : Str
  pub ticket_id : Str

pub data Event (Db : Type 0) : Type 0 where
  done : Db → Str → Event Db
  tick : Db → Event Db

-- What one tick decides from the state that it read.
pub data Verdict : Type 0 where
  wait : Verdict
  decided : Status → Verdict

pub verdict : Str → Verdict
verdict state =
    if str_eq state ticket_open
    then wait
    else if str_eq state ticket_approved
    then decided approve
    else if str_eq state ticket_rejected
    then decided reject
    else if str_eq state ticket_closed
    then decided reject
    else wait

module _ (e : Engine) where
  unfoldable pub check_is_need_login_confirm :
      Core e.Db
      → LoginConfirmService
      → (fresh_id date : Str) → Core e.Db × LoginConfirmService × Bool × Option Error
  check_is_need_login_confirm c s fresh_id date =
      let (c', res, err) =
        check_if_need_asset_login_confirm e c s.user_id s.username s.asset_id s.asset_name
          s.system_username fresh_id date in
      elim err [
        | some x ↦ (c', s, false, some x)
        | none ↦ (
          c',
          record s { ticket_id = res.ticket_id; reviewers = res.reviewers },
          res.need_confirm,
          none,
        )
      ]

  -- The status, the service, and the database where the client's end closed the ticket; `none` when
  -- the events run out and the service still waits.
  unfoldable pub wait_confirm_finish :
      LoginConfirmService → List (Event e.Db) → Option (Status × LoginConfirmService × Option e.Db)
  unfolding verdict
  wait_confirm_finish s [] = none
  wait_confirm_finish s (done db date ∷ rest) =
      some (cancel, s, some (cancel_confirm_by_request_info e db s.ticket_id date).0)
  wait_confirm_finish s (tick db ∷ rest) =
      let again = wait_confirm_finish s rest in
      let (res, err) = check_confirm_status_by_request_info e db s.ticket_id in
      elim err [
        | some x ↦ again
        | none ↦ elim (verdict res.state) [
          | wait ↦ again
          | decided status ↦ some (status, record s { approver = res.approver }, none)
        ]
      ]
