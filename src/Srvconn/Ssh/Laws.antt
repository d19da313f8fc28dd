-- ===== src/Srvconn/Ssh/Laws.antt =====
-- The options that a login builds and the methods of authentication that come of them.
use gojump.Prelude.{
  ℕ, Str, List, [], ◌∷◌, ◌++◌, Option, none, some, if◌then◌else◌, str_eq, ◌≡◌, refl, ap, ◌∙◌, arith,
  Bool-cases, inl, inr,
}
use gojump.Prelude.Int.{ℤ}
use gojump.Prelude.Format.{itoa}
use gojump.Model.{Asset, SystemUser}
use gojump.Model.Protocol.{protocol_port}
use gojump.Srvconn.Ssh.{
  Challenge, SshClientOption, ssh_client_keyboard_auth, AuthMethod, password, keyboard_interactive,
  SshClientOptions, options_of, default_options, ssh_client_username, ssh_client_host,
  ssh_client_port, ssh_client_password, ssh_client_timeout, ssh_client_private_auth,
  answer_password, auth_methods, keyboard_methods, key_methods, signer_method,
  build_ssh_client_options, build_signer, apply_options,
}

module _ (parse_key : Str → Option ℕ) (parse_encrypted : Str → Str → Option ℕ) where
  -- AuthMethods keeps the challenge that it makes up, and so gives the same methods when it is
  -- asked again.
  pub auth_methods_again :
      (cfg : SshClientOptions)
      → let (cfg', methods) = auth_methods parse_key parse_encrypted cfg in
        auth_methods parse_key parse_encrypted cfg' ≡ (cfg', methods)
  unfolding auth_methods key_methods keyboard_methods
  auth_methods_again cfg = ground arith

  -- The key of a system user: with the password for a passphrase, else without.
  abbrev pub signer_of : SystemUser → Option ℕ
  signer_of u =
      if str_eq u.private_key [] then none else elim (parse_encrypted u.private_key u.password) [
        | some signer ↦ some signer
        | none ↦ parse_key u.private_key
      ]

  abbrev pub with_password : Str → List AuthMethod
  with_password pw =
      if str_eq pw [] then [] else password pw ∷ keyboard_interactive (answer_password pw) ∷ []

  abbrev built : ℤ → Asset → SystemUser → SshClientOptions
  built timeout asset u = record {
    host = asset.ip;
    port = itoa (protocol_port asset u.protocol);
    username = u.username;
    passwd = u.password;
    private_key = [];
    passphrase = [];
    timeout = timeout;
    keyboard_auth = none;
    private_auth = signer_of u;
  }

  built_cfg :
      (timeout : ℤ) (asset : Asset) (u : SystemUser)
      → options_of (build_ssh_client_options parse_key parse_encrypted timeout asset u)
        ≡ built timeout asset u
  unfolding options_of default_options build_ssh_client_options apply_options build_signer
      ssh_client_username ssh_client_host ssh_client_port ssh_client_password ssh_client_timeout
      ssh_client_private_auth
  built_cfg timeout asset u = ground arith

  built_methods :
      (timeout : ℤ) (asset : Asset) (u : SystemUser)
      → (auth_methods parse_key parse_encrypted (built timeout asset u)).1
        ≡ signer_method (signer_of u) ++ with_password u.password
  unfolding auth_methods key_methods keyboard_methods str_eq
  built_methods timeout asset u = elim (Bool-cases (str_eq u.password [])) [
    | inl e ↦ rw e refl
    | inr e ↦ rw e refl
  ]

  apply_options-append :
      (opts : List SshClientOption) (f : SshClientOption) (cfg : SshClientOptions)
      → apply_options (opts ++ (f ∷ [])) cfg ≡ f (apply_options opts cfg)
  unfolding apply_options
  apply_options-append [] f cfg = refl
  apply_options-append (g ∷ opts) f cfg = apply_options-append opts f (g cfg)

  asked_cfg :
      (timeout : ℤ) (asset : Asset) (u : SystemUser) (challenge : Challenge)
      → options_of (
          build_ssh_client_options parse_key parse_encrypted timeout asset u
          ++ (ssh_client_keyboard_auth challenge ∷ []))
        ≡ ssh_client_keyboard_auth challenge (built timeout asset u)
  unfolding options_of
  asked_cfg timeout asset u challenge =
      apply_options-append (build_ssh_client_options parse_key parse_encrypted timeout asset u)
        (ssh_client_keyboard_auth challenge) default_options
      ∙ ap (ssh_client_keyboard_auth challenge) (built_cfg timeout asset u)

  abbrev pub password_only : Str → List AuthMethod
  password_only pw = if str_eq pw [] then [] else password pw ∷ []

  asked_methods :
      (timeout : ℤ) (asset : Asset) (u : SystemUser) (challenge : Challenge)
      → (auth_methods parse_key parse_encrypted
          (ssh_client_keyboard_auth challenge (built timeout asset u))).1
        ≡ signer_method (signer_of u)
          ++ (password_only u.password ++ (keyboard_interactive challenge ∷ []))
  unfolding auth_methods key_methods keyboard_methods str_eq ssh_client_keyboard_auth
  asked_methods timeout asset u challenge = refl

  -- The options of BuildSSHClientOptions name the address of the asset, the port of the protocol and
  -- the system user. They offer the system user's key, where one can be read with or without the
  -- password, and then, where there is a password, the password itself and as the answer to every
  -- question. With a challenge behind them the key and the password are offered alike, and then the
  -- challenge, with or without a password.
  pub built_options :
      (timeout : ℤ) (asset : Asset) (u : SystemUser) (challenge : Challenge)
      → let opts = build_ssh_client_options parse_key parse_encrypted timeout asset u in
        let cfg = options_of opts in
        let asked = options_of (opts ++ (ssh_client_keyboard_auth challenge ∷ [])) in
        (cfg.host ≡ asset.ip)
        × (cfg.port ≡ itoa (protocol_port asset u.protocol))
        × (cfg.username ≡ u.username)
        × ((auth_methods parse_key parse_encrypted cfg).1
            ≡ signer_method (signer_of u) ++ with_password u.password)
        × (asked ≡ record cfg { keyboard_auth = some challenge })
        × ((auth_methods parse_key parse_encrypted asked).1
            ≡ signer_method (signer_of u)
              ++ (password_only u.password ++ (keyboard_interactive challenge ∷ [])))
  unfolding ssh_client_keyboard_auth
  built_options timeout asset u challenge =
      rw (built_cfg timeout asset u, asked_cfg timeout asset u challenge)
        (
          refl,
          refl,
          refl,
          built_methods timeout asset u,
          refl,
          asked_methods timeout asset u challenge,
        )
