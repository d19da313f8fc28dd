-- ===== src/Examples/AdminRuns.antt =====
-- The administrator's client on the example database.
use gojump.Prelude.{[], ◌∷◌, map, none, codes, ◌≡◌, ◌↔◌, refl, In, str_eq}
use gojump.Store.{query_structs}
use gojump.Core.Listings.{query_all_user_secret}
use gojump.Core.Listings.Secrets.{erase, secrets, secrets_hidden}
use gojump.Handler.Admin.{AdminLine, panicked, admin_line, admin_system}
use gojump.Handler.Admin.Laws.{IsRuled, admin_rules}
use gojump.Handler.Admin.Panic.{commands, line_panics_iff}
use gojump.Examples.Memory.{
  Tables, memory, memory_tickets, alice_secret, tables, core, count_bytes, show_time,
}

abbrev approve_it : AdminLine
approve_it = record { line = codes "approve t1"; date = codes "now"; drawn = codes "123456" }

abbrev reject_it : AdminLine
reject_it = record approve_it { line = codes "reject t1" }

rules_example :
    IsRuled memory memory_tickets
      (codes "admin")
      core
      (admin_system memory
        (codes "admin")
        count_bytes
        show_time
        none
        core
        (approve_it ∷ reject_it ∷ [])).0
rules_example =
    admin_rules memory memory_tickets (codes "admin") count_bytes show_time none core
      (approve_it ∷ reject_it ∷ [])

panic_example :
    (admin_line memory (codes "admin") count_bytes show_time none core (codes "approve") approve_it
      ≡ panicked)
    ↔ In (codes "approve") commands
panic_example =
    line_panics_iff memory (codes "admin") count_bytes show_time none core (codes "approve")
      approve_it

-- The same database with another password for alice.
abbrev other_tables : Tables
other_tables = record tables { secrets = record alice_secret { password = codes "other" } ∷ [] }

same_erased :
    map erase (secrets count_bytes show_time memory tables).0
    ≡ map erase (secrets count_bytes show_time memory other_tables).0
unfolding query_structs str_eq
same_erased = refl

same_end :
    (secrets count_bytes show_time memory tables).1
    ≡ (secrets count_bytes show_time memory other_tables).1
unfolding query_structs str_eq
same_end = refl

hidden_example :
    query_all_user_secret count_bytes show_time memory tables
    ≡ query_all_user_secret count_bytes show_time memory other_tables
hidden_example =
    secrets_hidden count_bytes show_time memory tables other_tables same_erased same_end
