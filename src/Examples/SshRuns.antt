-- ===== src/Examples/SshRuns.antt =====
-- The client of one login, and the calls on it.
use gojump.Prelude.{◌∷◌, ℕ, Str, [], ◌++◌, false, none, some, Option, length, ◌≡◌, ◌↔◌, refl, arith}
use gojump.Prelude.Int.{pos, ltb_ℤ}
use gojump.Prelude.Format.{itoa}
use gojump.Model.Protocol.{protocol_port}
use gojump.Srvconn.Ssh.{
  SshClient, Challenge, keyboard_interactive, ssh_client_keyboard_auth, default_options, options_of,
  build_ssh_client_options, auth_methods, signer_method, acquire_begin, acquire_end,
}
use gojump.Srvconn.Ssh.Laws.{signer_of, with_password, password_only, built_options}
use gojump.Srvconn.Ssh.Count.{Reach, here, next, begin, opened, IsCounted, quiet_count}
use gojump.Examples.Memory.{web, root}

abbrev pub no_key : Str → Option ℕ
no_key s = none

abbrev pub no_encrypted : Str → Str → Option ℕ
no_encrypted s passphrase = none

abbrev refuse_all : Challenge
refuse_all user instruction questions echos = none

built_example :
    let opts = build_ssh_client_options no_key no_encrypted (pos 15) web root in
    let cfg = options_of opts in
    let asked = options_of (opts ++ (ssh_client_keyboard_auth refuse_all ∷ [])) in
    (cfg.host ≡ web.ip)
    × (cfg.port ≡ itoa (protocol_port web root.protocol))
    × (cfg.username ≡ root.username)
    × ((auth_methods no_key no_encrypted cfg).1
        ≡ signer_method (signer_of no_key no_encrypted root)
          ++ with_password no_key no_encrypted root.password)
    × (asked ≡ record cfg { keyboard_auth = some refuse_all })
    × ((auth_methods no_key no_encrypted asked).1
        ≡ signer_method (signer_of no_key no_encrypted root)
          ++ (password_only no_key no_encrypted root.password
              ++ (keyboard_interactive refuse_all ∷ [])))
built_example = built_options no_key no_encrypted (pos 15) web root refuse_all

abbrev pub client : SshClient
client = record {
  cfg = default_options;
  sessions = [];
  ref_count = pos 0;
  acquiring = 0;
  releasing = [];
}

client-IsCounted : IsCounted client
client-IsCounted = record { count = refl; distinct = tt; once = tt; own = λ s i. elim i [ ] }

abbrev used : SshClient
used = acquire_end (acquire_begin client) (some 3)

used-Reach : Reach client used
unfolding acquire_begin
used-Reach =
    next (next here (begin client))
      (opened (acquire_begin client) 3 (omega arith) (λ i. elim i [ ]))

used_idle : used.acquiring ≡ 0
unfolding acquire_begin acquire_end
used_idle = refl

used_quiet : used.releasing ≡ []
unfolding acquire_begin acquire_end
used_quiet = refl

quiet_example :
    (used.ref_count ≡ pos (length used.sessions))
    × ((ltb_ℤ (pos 0) used.ref_count ≡ false) ↔ (used.sessions ≡ []))
quiet_example = quiet_count client used client-IsCounted used-Reach used_idle used_quiet
