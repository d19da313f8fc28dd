-- ===== src/Examples/ConnectRuns.antt =====
-- Two logins of one user to one asset, the second on the client of the first.
use gojump.Prelude.{
  ◌≢◌, true, ℕ, Str, List, [], ◌∷◌, none, some, inr, Option, length, codes, ◌≡◌, refl, not, keep,
}
use gojump.Prelude.Int.{pos}
use gojump.Store.{Error}
use gojump.Srvconn.Ssh.{AuthMethod, new_ssh_client}
use gojump.Proxy.Connect.{
  reuse_key, Windows, Replies, SshConnection, Connects, answer_questions, new_ssh_connection,
  open_on, cached_connection, dial_client, get_ssh_conn, ssh_term, ssh_pty_win,
}
use gojump.Proxy.Connect.Keyboard.{IsSpared, typed, is_stored, first_lines, answers_split}
use gojump.Proxy.Connect.Laws.{IsSettled, get_ssh_conn-IsSettled}
use gojump.Proxy.Connect.Reuse.{Turn, run_turns, session_of, get_ssh_conn-reused}
use gojump.Srvconn.Clients.{tick}
use gojump.Proxy.Server.{check_required_auth}
use gojump.Examples.Memory.{config}
use gojump.Examples.SshRuns.{no_key, no_encrypted, client}
use gojump.Examples.ProxyRuns.{server}

abbrev answered : Str → Str → List AuthMethod → Option Error
answered address user methods = none

abbrev no_connects : Connects
no_connects = record {
  manager = record { entries = []; latest_visited = 0 };
  clients = λ n. client;
}

abbrev willing : Replies
willing = record {
  request_pty = λ term height width. none;
  stdin_pipe = none;
  stdout_pipe = none;
  shell = none;
}

abbrev screen : Windows
screen = record { width = pos 80; height = pos 24 }

abbrev connection : ℕ → SshConnection
connection sess = record { session = sess; options = record { win = screen; term = codes "xterm" } }

settled_example :
    IsSettled no_connects
      (get_ssh_conn no_key no_encrypted answered
        (pos 15)
        no_connects
        0
        1
        server
        []
        (inr 7)
        willing
        (codes "xterm")
        screen).0
      (reuse_key server)
      1
      (get_ssh_conn no_key no_encrypted answered
        (pos 15)
        no_connects
        0
        1
        server
        []
        (inr 7)
        willing
        (codes "xterm")
        screen).1
settled_example =
    get_ssh_conn-IsSettled no_key no_encrypted answered (pos 15) no_connects 0 1 server [] (inr 7)
      willing (codes "xterm") screen

first_opened :
    (get_ssh_conn no_key no_encrypted answered
      (pos 15)
      no_connects
      0
      1
      server
      []
      (inr 7)
      willing
      (codes "xterm")
      screen).1
    ≡ inr (connection 7)
unfolding get_ssh_conn dial_client new_ssh_client open_on new_ssh_connection ssh_term ssh_pty_win
first_opened = refl

second_set_up :
    new_ssh_connection 8 willing (ssh_pty_win screen ∷ ssh_term (codes "xterm") ∷ [])
    ≡ inr (connection 8)
unfolding new_ssh_connection ssh_term ssh_pty_win
second_set_up = refl

abbrev opened : Connects
opened =
    (get_ssh_conn no_key no_encrypted answered (pos 15) no_connects 0 1 server [] (inr 7) willing
      (codes "xterm") screen).0

-- A clean-up, two minutes later.
abbrev turns : List Turn
turns = record { counts = λ n. pos 1; at = 120000000000; request = tick } ∷ []

abbrev later_connects : Connects
later_connects = record { manager = run_turns opened.manager turns; clients = λ n. client }

abbrev shared_cache : Str → Option ℕ
shared_cache key =
    session_of (cached_connection later_connects 5 server (inr 8) willing (codes "xterm") screen).1

root_named : server.conn_opts.system_user.username ≢ []
root_named h = cc

reused_example :
    check_required_auth (record config { reuse_connection = true }) shared_cache server [] none
    ≡ some (record server { cache_ssh_connection = some 8 })
reused_example =
    get_ssh_conn-reused no_key no_encrypted answered (pos 15) no_connects 0 1 server [] (inr 7)
      willing (codes "xterm") screen (connection 7) turns (λ n. client) 5 8 willing (codes "xterm")
      screen (connection 8) (record config { reuse_connection = true }) shared_cache server [] none
      first_opened (refl, tt) refl second_set_up refl refl refl root_named refl refl

abbrev questions : List Str
questions = codes "Password: " ∷ codes "Code: " ∷ []

answers_example :
    let answers = answer_questions (codes "pw") [] questions (codes "123" ∷ []) in
    (length answers ≡ length questions)
    × IsSpared (codes "pw") [] questions answers
    × (typed (codes "pw") [] questions answers
        ≡ first_lines
            (length (keep (λ q. not (is_stored (codes "pw") [] q)) questions))
            (codes "123" ∷ []))
answers_example = answers_split (codes "pw") [] questions (codes "123" ∷ [])
