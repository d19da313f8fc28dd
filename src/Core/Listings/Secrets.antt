-- ===== src/Core/Listings/Secrets.antt =====
-- What the listings of secrets show.
use gojump.Prelude.{
  ℕ, Str, List, [], ◌∷◌, map, Option, codes, str_eq, ◌≡◌, refl, ap, ◌∙◌, sym, arith,
}
use gojump.Prelude.Int.{ℤ}
use gojump.Model.{UserSecret, SystemUser}
use gojump.Store.{Engine, Error, query_structs}
use gojump.Core.Assets.{no_system_user}
use gojump.Core.Users.{no_secret}
use gojump.Core.Listings.{
  masked, user_secret_line, system_user_line, query_all_user_secret, query_all_system_user,
}

-- What may show of a secret text: whether it is empty.
abbrev pub stars : Str → Str
stars [] = []
stars (c ∷ s) = codes "********"

-- A secret with each of its texts, unless empty, replaced by the same stars.
abbrev pub erase : UserSecret → UserSecret
erase v = record v {
  password = stars v.password;
  private_key = stars v.private_key;
  authorized_keys = map (λ k. codes "********") v.authorized_keys;
}

abbrev pub erase_user : SystemUser → SystemUser
erase_user v = record v { password = stars v.password; private_key = stars v.private_key }

masked-stars : (s : Str) → masked (stars s) ≡ masked s
unfolding masked str_eq
masked-stars [] = refl
masked-stars (c ∷ s) = refl

map_const_twice : {A : Type 0} (c : A) (l : List A) → map (λ k. c) (map (λ k. c) l) ≡ map (λ k. c) l
map_const_twice c [] = refl
map_const_twice c (x ∷ xs) = ap (◌∷◌ c) (map_const_twice c xs)

map_erased {ℓ κ} :
    {A : Type ℓ} {B : Type κ} (f : A → B) (g : A → A) (l : List A)
    → ((a : A) → f (g a) ≡ f a)
    → map f (map g l) ≡ map f l
map_erased f g [] h = refl
map_erased f g (x ∷ xs) h = cc (h x, map_erased f g xs h)

module _ (rune_count : Str → ℕ) (format_time : ℤ → Str) where
  secret_line-erase :
      (v : UserSecret)
      → user_secret_line rune_count format_time (erase v)
        ≡ user_secret_line rune_count format_time v
  unfolding user_secret_line
  secret_line-erase v = rw (
    masked-stars v.password,
    masked-stars v.private_key,
    map_const_twice (codes "********") v.authorized_keys,
  )

  system_user_line-erase :
      (v : SystemUser)
      → system_user_line rune_count format_time (erase_user v)
        ≡ system_user_line rune_count format_time v
  unfolding system_user_line
  system_user_line-erase v = rw (masked-stars v.password, masked-stars v.private_key)

  -- Lines that do not see what `erase` takes away come out the same for two answers that agree
  -- behind it.
  lines-erase :
      {M : Type 0} (line : M → Str) (hide : M → M)
      → ((v : M) → line (hide v) ≡ line v)
      → (l m : List M) → map hide l ≡ map hide m
      → map line l ≡ map line m
  lines-erase line hide same l m h =
      sym (map_erased line hide l same) ∙ ap (map line) h ∙ map_erased line hide m same

  module _ (e : Engine) where
    abbrev pub secrets : e.Db → List UserSecret × Option Error
    secrets db = query_structs e e.scan_secret no_secret db "SELECT * FROM USERSECRET" []

    abbrev pub system_users : e.Db → List SystemUser × Option Error
    system_users db =
        query_structs e e.scan_system_user no_system_user db "SELECT * FROM SYSTEMUSER" []

    -- What the administrator reads of the users' secrets tells two databases apart only if they
    -- differ in a user's number, in whether a password or a private key is set, or in the number of
    -- authorized keys: the secrets themselves never show.
    pub secrets_hidden :
        (db db' : e.Db)
        → map erase (secrets db).0 ≡ map erase (secrets db').0
        → (secrets db).1 ≡ (secrets db').1
        → query_all_user_secret rune_count format_time e db
          ≡ query_all_user_secret rune_count format_time e db'
    unfolding query_all_user_secret
    secrets_hidden db db' same ended = ground (
      arith,
      lines-erase (user_secret_line rune_count format_time) erase secret_line-erase (secrets db).0
          (secrets db').0 same,
    )

    -- The same holds of the passwords and private keys of the system users.
    pub system_secrets_hidden :
        (db db' : e.Db)
        → map erase_user (system_users db).0 ≡ map erase_user (system_users db').0
        → (system_users db).1 ≡ (system_users db').1
        → query_all_system_user rune_count format_time e db
          ≡ query_all_system_user rune_count format_time e db'
    unfolding query_all_system_user
    system_secrets_hidden db db' same ended = ground (
      arith,
      lines-erase (system_user_line rune_count format_time) erase_user system_user_line-erase
          (system_users db).0 (system_users db').0 same,
    )
