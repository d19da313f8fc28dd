-- ===== src/Examples/CoreRuns.antt =====
-- The core's operations on concrete data, and the helpers of pkg/common and pkg/model.
use gojump.Prelude.{
  Str, List, [], ◌∷◌, true, false, none, some, codes, str_eq, ◌≡◌, ◌≢◌, ◌≤◌, refl, All, length,
  keep, contains,
}
use gojump.Prelude.Int.{pos}
use gojump.Prelude.Dict.{lookup, delete}
use gojump.Model.Expire.{ExpireInfo, is_expired}
use gojump.Model.Protocol.{is_support_protocol, to_lower, supports}
use gojump.Model.{Node}
use gojump.Store.{query_into, query_structs}
use gojump.Common.Prefix.{longest_common_prefix, filter_prefix}
use gojump.Common.Prefix.Laws.{Begins, longest_common_prefix_greatest}
use gojump.Core.{Core, new_core}
use gojump.Core.Otp.{otp_matches, gen_otpassword, verify_otp}
use gojump.Core.Otp.Laws.{Section, draws, tests, clears, enter_all, verify_once}
use gojump.Core.Otp.Race.{run_two, testing, answered, run_overlapping}
use gojump.Core.Timers.{verify, Event, draw, fail, timeout, run}
use gojump.Core.Timers.Stale.{stale_timer}
use gojump.Core.Timers.Invariant.{IsTimed, run_new-IsTimed}
use gojump.Core.Tickets.{
  ticket_open, ticket_approved, ticket_rejected, update_ticket_state,
  check_confirm_status_by_request_info, cancel_confirm_by_request_info,
}
use gojump.Core.Tickets.Laws.{first_decision_wins, status-update}
use gojump.Core.Assets.{
  query_direct_login_info, get_asset_by_name, get_system_users_by_user_id_and_asset_id,
  get_system_users,
}
use gojump.Examples.Memory.{Tables, memory, memory_tickets, web, root, pending, tables, core}

abbrev cd : List Str
cd = codes "cat" ∷ codes "car" ∷ []

cd_nonempty : cd ≢ []
cd_nonempty h = cc

prefix_example :
    All (Begins (longest_common_prefix cd)) cd × (1 ≤ length (longest_common_prefix cd))
prefix_example = longest_common_prefix_greatest cd (codes "c") cd_nonempty (refl, (refl, tt))

filtered : filter_prefix cd (codes "ca") ≡ cd
unfolding filter_prefix str_eq
filtered = refl

filtered_nonempty : filter_prefix cd (codes "ca") ≢ []
filtered_nonempty h = cc (filtered, h)

abbrev until_500 : ExpireInfo
until_500 = record { expire_at = pos 500 }

expired_at_600 : is_expired until_500 (pos 600) ≡ true
unfolding is_expired
expired_at_600 = refl

no_rdp : is_support_protocol web (codes "rdp") ≡ false
unfolding is_support_protocol contains to_lower supports
no_rdp = refl

abbrev group : Node
group = record { id = codes "n1"; key = codes "1:2"; name = []; asset_ids = codes "a1" ∷ [] }

abbrev secret_text : Str
secret_text = codes "Ab12"

drawn : (gen_otpassword core (codes "alice") secret_text).1 ≡ secret_text
unfolding gen_otpassword lookup
drawn = refl

drawn_nonempty : (gen_otpassword core (codes "alice") secret_text).1 ≢ []
drawn_nonempty h = cc (drawn, h)

drawn_differs : (gen_otpassword core (codes "alice") secret_text).1 ≢ codes "x"
drawn_differs h = cc (drawn, h)

abbrev sections : List Section
sections =
    tests (codes "alice") secret_text
    ∷ draws (codes "bob") (codes "z")
    ∷ clears (codes "alice")
    ∷ []

bob_differs : codes "bob" ≢ codes "alice"
bob_differs h = cc

verify_once_example :
    let (c', handed) = gen_otpassword core (codes "alice") secret_text in
    let later = enter_all (verify_otp c' (codes "alice") handed).0 sections in
    (verify_otp c' (codes "alice") (codes "x") ≡ (c', false))
    × ((verify_otp c' (codes "alice") handed).1 ≡ true)
    × (otp_matches later (codes "alice") secret_text ≡ false)
    × (verify_otp later (codes "alice") secret_text ≡ (later, false))
verify_once_example =
    verify_once core (codes "alice") secret_text (codes "x") secret_text sections drawn_nonempty
      drawn_differs (tt, (bob_differs, (tt, tt)))

abbrev otp_core : Core Tables
otp_core = record core { otpassword = (codes "alice", secret_text) ∷ [] }

secret_text_nonempty : secret_text ≢ []
secret_text_nonempty h = cc

otp_stored : lookup (codes "alice") otp_core.otpassword ≡ some secret_text
unfolding lookup str_eq
otp_stored = refl

overlapping_example :
    run_two (false ∷ true ∷ false ∷ true ∷ []) otp_core (codes "alice") secret_text testing testing
    ≡ (
      record otp_core { otpassword = delete (codes "alice") otp_core.otpassword },
      answered true,
      answered true,
    )
overlapping_example =
    run_overlapping otp_core (codes "alice") secret_text secret_text_nonempty otp_stored

abbrev history : List Event
history = draw (codes "alice") secret_text ∷ fail (codes "bob") ∷ timeout 0 ∷ []

IsTimed-example : IsTimed (run (new_core tables) history)
IsTimed-example = run_new-IsTimed tables history

no_password : lookup (codes "alice") core.otpassword ≡ none
unfolding lookup
no_password = refl

stale_example :
    let c' = run core (
      draw (codes "alice") secret_text
      ∷ verify (codes "alice") secret_text
      ∷ draw (codes "alice") (codes "Cd34")
      ∷ []) in
    (lookup (codes "alice") c'.otpassword ≡ some (codes "Cd34"))
    × (lookup (codes "alice") (run c' (timeout 1 ∷ [])).otpassword ≡ none)
stale_example =
    stale_timer core (codes "alice") secret_text (codes "Cd34") no_password secret_text_nonempty

approves : ticket_approved ≢ ticket_open
approves h = cc

update_succeeds :
    (update_ticket_state memory tables (codes "t1") ticket_approved (codes "bob") []).1 ≡ none
unfolding update_ticket_state str_eq
update_succeeds = refl

first_decision_example :
    let db' = (update_ticket_state memory tables (codes "t1") ticket_approved (codes "bob") []).0 in
    memory_tickets.tickets
      (update_ticket_state memory db' (codes "t1") ticket_rejected (codes "eve") []).0
    ≡ memory_tickets.tickets db'
first_decision_example =
    first_decision_wins memory memory_tickets tables (codes "t1") ticket_approved (codes "bob") []
      ticket_rejected (codes "eve") [] approves update_succeeds

only_pending :
    keep (λ t. str_eq t.ticket_id (codes "t1")) (memory_tickets.tickets tables) ≡ pending ∷ []
unfolding memory_tickets str_eq
only_pending = refl

status_example :
    let db' = (update_ticket_state memory tables (codes "t1") ticket_approved (codes "bob") []).0 in
    let db'' = (cancel_confirm_by_request_info memory db' (codes "t1") []).0 in
    (check_confirm_status_by_request_info memory db' (codes "t1")
      ≡ (record { approver = codes "bob"; state = ticket_approved }, none))
    × (check_confirm_status_by_request_info memory db'' (codes "t1")
        ≡ (record { approver = codes "bob"; state = ticket_approved }, none))
status_example =
    status-update memory memory_tickets tables (codes "t1") ticket_approved (codes "bob") [] []
      pending only_pending refl refl approves update_succeeds

abbrev direct : List (Str × Str)
direct = (codes "asset", codes "web") ∷ (codes "sysuser", codes "root") ∷ []

direct_found : query_direct_login_info memory tables (codes "u1") direct ≡ (web, root, none)
unfolding query_direct_login_info get_asset_by_name get_system_users_by_user_id_and_asset_id lookup
    str_eq query_into get_system_users query_structs
direct_found = refl

direct_ok : (query_direct_login_info memory tables (codes "u1") direct).2 ≡ none
direct_ok = cc direct_found
