-- ===== src/Core/Assets/Laws.antt =====
-- What a direct login reaches.
use gojump.Prelude.{
  In, head, tail, Str, List, [], ◌∷◌, none, codes, str_eq, eq_iff, ◌≡◌, ◌≢◌, ◌⊎◌, inl, inr, refl,
  subst, sym, arith, Bool-cases, ap,
}
use gojump.Prelude.Dict.{Dict, lookup}
use gojump.Model.{SystemUser}
use gojump.Store.{Engine}
use gojump.Core.Assets.{
  no_system_user, choose, or_empty, get_asset_by_name, get_system_users_by_user_id_and_asset_id,
  query_direct_login_info,
}

-- The choice is the default, or a listed user of the name.
abbrev Chosen : Str → SystemUser → List SystemUser → SystemUser → Type 0
Chosen name default vs u = (u ≡ default) ⊎ (In u vs × (u.username ≡ name))

Chosen-hit :
    (name : Str) (default v u : SystemUser) (vs : List SystemUser)
    → v.username ≡ name
    → Chosen name v vs u
    → Chosen name default (v ∷ vs) u
Chosen-hit name default v u vs n (inl e) = inr (subst (λ x. In x (v ∷ vs)) (sym e) head, rw e n)
Chosen-hit name default v u vs n (inr (i, m)) = inr (tail i, m)

Chosen-miss :
    (name : Str) (default v u : SystemUser) (vs : List SystemUser)
    → Chosen name default vs u
    → Chosen name default (v ∷ vs) u
Chosen-miss name default v u vs (inl e) = inl e
Chosen-miss name default v u vs (inr (i, m)) = inr (tail i, m)

choose-Chosen :
    (name : Str) (default : SystemUser) (vs : List SystemUser)
    → Chosen name default vs (choose name default vs)
unfolding choose
choose-Chosen name default [] = inl refl
choose-Chosen name default (v ∷ vs) = elim (Bool-cases (str_eq v.username name)) [
  | inl e ↦
      let hit : choose name default (v ∷ vs) ≡ choose name v vs = rw e in
      subst (Chosen name default (v ∷ vs)) (sym hit) (
        Chosen-hit name default v (choose name v vs) vs ((eq_iff v.username name).0 e)
          (choose-Chosen name v vs))
  | inr e ↦
      let miss : choose name default (v ∷ vs) ≡ choose name default vs = rw e in
      subst (Chosen name default (v ∷ vs)) (sym miss)
        (Chosen-miss name default v (choose name default vs) vs (choose-Chosen name default vs))
]

-- A choice with an identifier is no default.
Chosen-real :
    (name : Str) (vs : List SystemUser) (u : SystemUser)
    → Chosen name no_system_user vs u
    → u.id ≢ []
    → In u vs × (u.username ≡ name)
Chosen-real name vs u (inl e) h = absurd (h (ap (λ (x : SystemUser). x.id) e))
Chosen-real name vs u (inr m) h = m

module _ (e : Engine) where
  -- A direct login that is let through reaches the asset of the name that was asked for, and logs in
  -- as a system user of the name that was asked for, out of those that the database lists for this
  -- user on this asset; both are real rows.
  pub direct_login_allowed :
      (db : e.Db) (user_id : Str) (direct_login : Dict Str)
      → (query_direct_login_info e db user_id direct_login).2 ≡ none
      → let (asset, sys_user, err) = query_direct_login_info e db user_id direct_login in
        (get_asset_by_name e db (or_empty (lookup (codes "asset") direct_login)) ≡ (asset, none))
        × (asset.id ≢ [])
        × (sys_user.id ≢ [])
        × (sys_user.username ≡ or_empty (lookup (codes "sysuser") direct_login))
        × In sys_user (get_system_users_by_user_id_and_asset_id e db user_id asset.id).0
  direct_login_allowed db user_id direct_login h =
      let asset_name = or_empty (lookup (codes "asset") direct_login) in
      let user_name = or_empty (lookup (codes "sysuser") direct_login) in
      let asset = (get_asset_by_name e db asset_name).0 in
      let users = (get_system_users_by_user_id_and_asset_id e db user_id asset.id).0 in
      let u = choose user_name no_system_user users in
      let real : u.id ≢ [] = unfold query_direct_login_info in ground (arith, eq_iff u.id []) in
      let m = Chosen-real user_name users u (choose-Chosen user_name no_system_user users) real in
      let r : query_direct_login_info e db user_id direct_login ≡ (asset, u, none) =
        unfold query_direct_login_info in ground arith in
      let found : get_asset_by_name e db asset_name ≡ (asset, none) =
        unfold query_direct_login_info in ground arith in
      let named : asset.id ≢ [] =
        unfold query_direct_login_info in ground (arith, eq_iff asset.id []) in
      rw r (found, named, real, m.1, m.0)
