-- ===== src/Handler/Admin.antt =====
-- AdminSystem of pkg/handler/admin.go, the client of the user "admin". A line comes with the time
-- of its handling and the text that `randomPass` would draw; the end of the list is the reader's
-- error. Outside the program are `rune_count` and `format_time` of the listings, and `config_text`,
-- the two settings as JSON, where that succeeds. What is written is taken to arrive.
pub mod Tables
pub mod Laws
pub mod Panic
use gojump.Prelude.{
  ℕ, Str, List, [], ◌∷◌, ◌++◌, map, false, Option, none, some, if◌then◌else◌, codes, str_eq, split,
  get_elem?, leb, ◌&&◌, ◌-◌, ◌+◌, ◌||◌, ◌==◌,
}
use gojump.Prelude.Int.{ℤ}
use gojump.Prelude.Atoi.{trim_space}
use gojump.Store.{Engine, Error}
use gojump.Core.{Core}
use gojump.Core.Otp.{gen_otpassword}
use gojump.Core.Tickets.{ticket_approved, ticket_rejected, update_ticket_state}
use gojump.Common.Color.{wrapper_string, red, green, char_new_line}
use gojump.Handler.Admin.Tables.{list_table}

pub record AdminLine : Type 0 where
  pub line : Str
  pub date : Str
  pub drawn : Str

-- What is written to the client: the help of displayAdminHelp, or a text.
pub data Output : Type 0 where
  help : Output
  write : Str → Output

-- How a line ends: the loop goes on, the client leaves, or an index is out of range.
pub data Turn (Db : Type 0) : Type 0 where
  go_on : Core Db → List Output → Turn Db
  left panicked : Turn Db

-- How the loop ends.
pub data End : Type 0 where
  quit closed crashed : End

-- `words[1]`.
with_argument : {Db : Type 0} → List Str → (Str → Turn Db) → Turn Db
with_argument words f = elim (get_elem? words 1) [ none ↦ panicked | some w ↦ f w ]

-- `words[0]`, which strings.Split always gives.
first_word : List Str → Str
first_word [] = []
first_word (w ∷ ws) = w

module _ (e : Engine) (username : Str) where
  -- updateTicketState
  unfoldable pub decide : Core e.Db → Str → Str → Str → Core e.Db × List Output
  decide c id state date =
      let (db', err) = update_ticket_state e c.db id state username date in
      (
        record c { db = db' },
        elim err [
          | some x ↦ write (wrapper_string (codes "Error") red false ++ char_new_line) ∷ []
          | none ↦ write (wrapper_string (codes "Submit") green false ++ char_new_line) ∷ []
        ],
      )

  decided : Core e.Db × List Output → Turn e.Db
  decided (c, out) = go_on c out

  handed_out : Core e.Db × Str → Turn e.Db
  handed_out (c, pass) = go_on c (write (pass ++ char_new_line) ∷ [])

  module _ (rune_count : Str → ℕ) (format_time : ℤ → Str) (config_text : Option Str) where
    tables : Core e.Db → Str → List Output
    tables c table = map write (list_table e rune_count format_time config_text c.db table)

    -- The switch on the first word.
    command : Core e.Db → List Str → AdminLine → Turn e.Db
    unfolding with_argument first_word decide tables decided handed_out
    command c words l =
        let word = first_word words in
        if str_eq word (codes "list")
        then with_argument words (λ w. go_on c (tables c w))
        else if str_eq word (codes "ticket")
        then go_on c (tables c (codes "PENDINGTICKET"))
        else if str_eq word (codes "approve")
        then with_argument words (λ w. decided (decide c w ticket_approved l.date))
        else if str_eq word (codes "reject")
        then with_argument words (λ w. decided (decide c w ticket_rejected l.date))
        else if str_eq word (codes "otp")
        then with_argument words (λ w. handed_out (gen_otpassword c w l.drawn))
        else if str_eq word (codes "help")
        then go_on c (help ∷ [])
        else if str_eq word (codes "exit") || str_eq word (codes "quit")
        then left
        else go_on c []

    -- One line of the client, with the blanks around it gone.
    unfoldable pub admin_line : Core e.Db → Str → AdminLine → Turn e.Db
    unfolding command
    admin_line c [] l = go_on c []
    admin_line c (ch ∷ rest) l =
        if ch == b'h'
        then go_on c (help ∷ [])
        else if ch == b'q'
        then left
        else command c (split (ch ∷ rest) b' ') l

    -- The loop, from the help on: the core, what was written, and the end.
    serve_lines : Core e.Db → List AdminLine → Core e.Db × List Output × End
    serve_lines c [] = (c, [], closed)
    serve_lines c (l ∷ ls) = elim (admin_line c (trim_space l.line) l) [
      | go_on c' out ↦ let (c'', later, end) = serve_lines c' ls in (c'', out ++ later, end)
      | left ↦ (c, [], quit)
      | panicked ↦ (c, [], crashed)
    ]

    unfoldable pub admin_system : Core e.Db → List AdminLine → Core e.Db × List Output × End
    unfolding serve_lines admin_line
    admin_system c lines = let (c', out, end) = serve_lines c lines in (c', help ∷ out, end)
