-- ===== src/Examples/AuthRuns.antt =====
-- Logins of one user, and a confirmation.
use gojump.Prelude.{
  List, [], ◌∷◌, true, false, none, some, codes, str_eq, split, ◌≡◌, ◌↔◌, ◌≤◌, ◌-◌, ◌+◌, leb, refl,
  arith,
}
use gojump.Prelude.Int.{pos}
use gojump.Prelude.Dict.{lookup}
use gojump.Model.{UserClient}
use gojump.Store.{query_into}
use gojump.Core.{Core}
use gojump.Core.Login.{user_is_blocked, reset_try_login}
use gojump.Core.Login.Laws.{tries, limit_times, blocked_exactly}
use gojump.Core.Tickets.{check_confirm_status_by_request_info}
use gojump.Core.Users.{get_user, user_authenticate}
use gojump.Core.Users.Laws.{Proof, user_authenticate_iff}
use gojump.Auth.UserAuth.{auth_success, authenticate}
use gojump.Auth.UserAuth.Laws.{Admits, Lasts, authenticate_iff}
use gojump.Auth.Ssh.{Ctx, login_name, parse_user_format_by_separator}
use gojump.Auth.Ssh.Laws.{Attempt, wrong_guesses, guesses_bounded}
use gojump.Auth.Confirm.{approve, LoginConfirmService, Event, tick, wait_confirm_finish}
use gojump.Auth.Confirm.Laws.{FirstSettles, wait_confirm_finish_iff}
use gojump.Examples.Memory.{Tables, memory, alice, config, core, compare_pw, tables, pending}

abbrev alice_client : UserClient
alice_client = record {
  username = codes "alice";
  password = codes "pw";
  public_key = [];
  remote_addr = codes "10.0.0.9";
}

login_test :
    (authenticate config memory compare_pw core alice_client (codes "alice") (pos 400)).2
    ≡ auth_success
unfolding authenticate user_is_blocked str_eq lookup get_user user_authenticate query_into
login_test = refl

authenticate_example :
    let (c', found, res) =
      authenticate config memory compare_pw core alice_client (codes "alice") (pos 400) in
    ((found ≡ alice) × (res ≡ auth_success)) ↔ (
      (user_is_blocked config core (codes "alice") ≡ false)
      × (get_user memory core.db (codes "alice") ≡ (alice, none))
      × (alice.is_active ≡ true)
      × Proof memory compare_pw core alice (codes "pw") []
      × Admits (codes "10.0.0.9") alice.addr_white_list
      × Lasts alice (pos 400))
authenticate_example =
    authenticate_iff config memory compare_pw core alice_client (codes "alice") (pos 400) alice

user_authenticate_example :
    let (c', found, ok) =
      user_authenticate memory compare_pw core (codes "alice") (codes "pw") [] in
    ((found ≡ alice) × (ok ≡ true)) ↔ (
      (get_user memory core.db (codes "alice") ≡ (alice, none))
      × (alice.is_active ≡ true)
      × Proof memory compare_pw core alice (codes "pw") [])
user_authenticate_example =
    user_authenticate_iff memory compare_pw core (codes "alice") (codes "pw") [] alice

abbrev alice_ctx : Ctx
alice_ctx = record {
  user = codes "alice";
  remote_addr = codes "10.0.0.9";
  context_user = none;
  client = none;
  direct_login = none;
}

abbrev wrong_attempt : Attempt
wrong_attempt = record { password = codes "guess"; public_key = []; now = pos 400; date = [] }

guesses_example :
    wrong_guesses config memory compare_pw (wrong_attempt ∷ wrong_attempt ∷ []) core alice_ctx
    ≤ 3 - tries core (login_name (codes "alice"))
guesses_example =
    guesses_bounded config memory compare_pw (wrong_attempt ∷ wrong_attempt ∷ []) core alice_ctx
      (omega arith)

abbrev locked_core : Core Tables
locked_core = record core { try_login_count = (codes "alice", 3) ∷ [] }

locked_tries : 3 ≤ tries locked_core (login_name (codes "alice"))
unfolding login_name parse_user_format_by_separator lookup str_eq split
locked_tries = omega arith

blocked_exactly_example :
    ((user_is_blocked config (limit_times 3 core (codes "alice")) (codes "alice") ≡ true)
      ↔ (3 ≤ tries core (codes "alice") + 3))
    × (user_is_blocked config
          (reset_try_login (limit_times 3 core (codes "alice")) (codes "alice"))
          (codes "alice")
        ≡ leb 3 0)
unfolding lookup
blocked_exactly_example = blocked_exactly config 3 core (codes "alice") (omega arith)

abbrev service : LoginConfirmService
service = record {
  user_id = codes "u1";
  username = codes "alice";
  system_username = codes "root";
  asset_id = codes "a1";
  asset_name = codes "web";
  reviewers = [];
  approver = [];
  ticket_id = codes "t1";
}

abbrev approved_tables : Tables
approved_tables = record tables {
  tickets = record pending { state = codes "approved"; approver = codes "bob" } ∷ [];
}

abbrev ticks : List (Event Tables)
ticks = tick tables ∷ tick approved_tables ∷ []

abbrev answered : LoginConfirmService
answered = record service { approver = codes "bob" }

wait_example :
    (wait_confirm_finish memory service ticks ≡ some (approve, answered, none))
    ↔ FirstSettles memory service (approve, answered, none) ticks
wait_example = wait_confirm_finish_iff memory service ticks (approve, answered, none)

ticks_approve : wait_confirm_finish memory service ticks ≡ some (approve, answered, none)
unfolding wait_confirm_finish check_confirm_status_by_request_info query_into str_eq
ticks_approve = refl
