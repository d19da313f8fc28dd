-- ===== src/Core/Users/Laws.antt =====
-- Who is authenticated.
use gojump.Prelude.{
  Str, List, [], ◌∷◌, Bool, true, false, none, if◌then◌else◌, str_eq, eq_iff, split, ◌≡◌, ◌≢◌, ◌↔◌,
  inl, inr, refl, arith, Bool-cases,
}
use gojump.Model.{User, UserSecret}
use gojump.Store.{Engine}
use gojump.Core.{Core}
use gojump.Core.Otp.{verify_otp, otp_matches}
use gojump.Core.Users.{
  key_field, do_public_key_match, uses_otp, do_passwords_match, get_user, get_secret, check_secret,
  user_authenticate,
}

-- A line of the authorized keys whose second field is the key.
pub data HasKey (key : Str) : List Str → Type 0 where
  at_head :
      {v : Str} {vs : List Str} (kind : Str) (rest : List Str)
      → split v b' ' ≡ kind ∷ key ∷ rest
      → HasKey key (v ∷ vs)
  further : {v : Str} {vs : List Str} → HasKey key vs → HasKey key (v ∷ vs)

key_field_sound :
    (fields : List Str) (key : Str)
    → key_field fields key ≡ true
    → (kind : Str) × (rest : List Str) × (fields ≡ kind ∷ key ∷ rest)
unfolding key_field
key_field_sound [] key h = cc
key_field_sound (kind ∷ []) key h = cc
key_field_sound (kind ∷ body ∷ rest) key h = (kind, rest, ground (arith, eq_iff body key))

key_field_complete :
    (fields : List Str) (key kind : Str) (rest : List Str)
    → fields ≡ kind ∷ key ∷ rest
    → key_field fields key ≡ true
unfolding key_field
key_field_complete fields key kind rest h = rw (h, key_field) ((eq_iff key key).1 refl)

-- One round of the loop, given what the later rounds find.
HasKey-step :
    (v key : Str) (vs : List Str) (later : Bool)
    → (later ≡ true → HasKey key vs)
    → (if key_field (split v b' ') key then true else later) ≡ true
    → HasKey key (v ∷ vs)
HasKey-step v key vs later found h = elim (Bool-cases (key_field (split v b' ') key)) [
  | inl e ↦ let (kind, rest, eq) = key_field_sound (split v b' ') key e in at_head kind rest eq
  | inr e ↦ further (found (ground arith))
]

match_sound : (keys : List Str) (key : Str) → do_public_key_match keys key ≡ true → HasKey key keys
unfolding do_public_key_match
match_sound [] key h = cc
match_sound (v ∷ vs) key h =
    HasKey-step v key vs (do_public_key_match vs key) (match_sound vs key) h

match_complete :
    (keys : List Str) (key : Str) → HasKey key keys → do_public_key_match keys key ≡ true
unfolding do_public_key_match
match_complete [] key h = elim h [ ]
match_complete (v ∷ vs) key (at_head kind rest eq) =
    ground (arith, key_field_complete (split v b' ') key kind rest eq)
match_complete (v ∷ vs) key (further k) = ground (arith, match_complete vs key k)

-- A public key is accepted exactly when it is the second field of one of the authorized lines.
pub do_public_key_match_iff :
    (keys : List Str) (key : Str) → (do_public_key_match keys key ≡ true) ↔ HasKey key keys
do_public_key_match_iff keys key = (match_sound keys key, match_complete keys key)

module _ (e : Engine) (compare_hash : Str → Str → Bool) where
  -- What the user showed.
  pub data Proof (c : Core e.Db) (user : User) (pass pub_key : Str) : Type 0 where
    one_time :
        uses_otp user ≡ true → otp_matches c user.username pass ≡ true → Proof c user pass pub_key
    key :
        (sec : UserSecret)
        → uses_otp user ≡ false
        → get_secret e c.db user ≡ (sec, none)
        → sec.user_id ≢ []
        → pub_key ≢ []
        → HasKey pub_key sec.authorized_keys
        → Proof c user pass pub_key
    password :
        (sec : UserSecret)
        → uses_otp user ≡ false
        → get_secret e c.db user ≡ (sec, none)
        → sec.user_id ≢ []
        → pub_key ≡ []
        → pass ≢ []
        → compare_hash sec.password pass ≡ true
        → Proof c user pass pub_key

  secret_sound :
      (c : Core e.Db) (user : User) (pass pub_key : Str)
      → uses_otp user ≡ false
      → check_secret e compare_hash c.db user pass pub_key ≡ true
      → Proof c user pass pub_key
  unfolding check_secret do_passwords_match
  secret_sound c user pass pub_key plain h = elim (Bool-cases (str_eq pub_key [])) [
    | inl none_sent ↦
        password (get_secret e c.db user).0 plain (ground arith)
          (ground (arith, eq_iff (get_secret e c.db user).0.user_id []))
          (ground (arith, eq_iff pub_key [])) (ground (arith, eq_iff pass [])) (ground arith)
    | inr sent ↦
        key (get_secret e c.db user).0 plain (ground arith)
          (ground (arith, eq_iff (get_secret e c.db user).0.user_id []))
          (ground (arith, eq_iff pub_key []))
          (match_sound (get_secret e c.db user).0.authorized_keys pub_key (ground arith))
  ]

  Proof-check :
      (c : Core e.Db) (user : User) (pass pub_key : Str)
      → Proof c user pass pub_key
      → (if uses_otp user
          then otp_matches c user.username pass
          else check_secret e compare_hash c.db user pass pub_key)
        ≡ true
  unfolding check_secret do_passwords_match
  Proof-check c user pass pub_key (one_time o m) = ground arith
  Proof-check c user pass pub_key (key sec o g i k m) = ground (
    arith,
    eq_iff sec.user_id [],
    eq_iff pub_key [],
    match_complete sec.authorized_keys pub_key m,
  )
  Proof-check c user pass pub_key (password sec o g i k p m) =
      ground (arith, eq_iff sec.user_id [], eq_iff pub_key [], eq_iff pass [])

  -- A user is authenticated exactly when the database has an active user of that name and the user
  -- showed the current one-time password, if the user's level asks for one, or else a public key
  -- that is authorized, or the password where no key was sent.
  pub user_authenticate_iff :
      (c : Core e.Db) (username pass pub_key : Str) (user : User)
      → let (c', found, ok) = user_authenticate e compare_hash c username pass pub_key in
        ((found ≡ user) × (ok ≡ true)) ↔ (
          (get_user e c.db username ≡ (user, none))
          × (user.is_active ≡ true)
          × Proof c user pass pub_key)
  unfolding user_authenticate verify_otp
  user_authenticate_iff c username pass pub_key user = (
    λ h. (
      ground arith,
      ground arith,
      elim (Bool-cases (uses_otp user)) [
        | inl o ↦ one_time o (ground arith)
        | inr o ↦ secret_sound c user pass pub_key o (ground arith)
      ],
    ),
    λ h. ground (arith, Proof-check c user pass pub_key h.2),
  )
