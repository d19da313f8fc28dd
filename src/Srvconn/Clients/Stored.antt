-- ===== src/Srvconn/Clients/Stored.antt =====
-- A client that was stored in the cache of pkg/srvconn/ssh.go is there for the next login.
use mathlib.Core.Option.{some-injective}
use gojump.Prelude.{
  sym, In-keep, List-cases, str_eq, eq_iff, ltb, ◌+◌, ℕ, Str, List, [], ◌∷◌, true, false, Option,
  none, some, In, head, tail, ◌==◌, ==_iff, any, ◌≡◌, ◌≢◌, refl, ap, ◌∙◌, subst, arith, Bool-cases,
  inl, inr,
}
use gojump.Prelude.Dict.{Dict, lookup, lookup-insert, str_eq_refl}
use gojump.Prelude.Int.{ℤ, pos, ltb_ℤ}
use gojump.Srvconn.Clients.{
  recycle_clients, recycle_all, Request, tick, search, Manager, get, store, turn, add_client,
  clients_of, found, select_client, get_client,
}
use gojump.Srvconn.Clients.Laws.{select_some}

any-In : (c : ℕ) (l : List ℕ) → any (λ x. x == c) l ≡ true → In c l
any-In c [] h = cc
any-In c (x ∷ xs) h = elim (Bool-cases (x == c)) [
  | inl b ↦ subst (λ y. In y (x ∷ xs)) ((==_iff x c).0 b) head
  | inr b ↦ tail (any-In c xs (ground (arith, h)))
]

add_client-In : (c : ℕ) (l : List ℕ) → In c (add_client c l)
unfolding add_client
add_client-In c l = elim (Bool-cases (any (λ x. x == c) l)) [
  | inl b ↦ let same : l ≡ add_client c l = ground arith in subst (In c) same (any-In c l b)
  | inr b ↦ let all : c ∷ l ≡ add_client c l = ground arith in subst (In c) all head
]

add_client-keeps : (d c : ℕ) (l : List ℕ) → In c l → In c (add_client d l)
unfolding add_client
add_client-keeps d c l i = elim (Bool-cases (any (λ x. x == d) l)) [
  | inl b ↦ let same : l ≡ add_client d l = ground arith in subst (In c) same i
  | inr b ↦ let all : d ∷ l ≡ add_client d l = ground arith in subst (In c) all (tail i)
]

-- The cache holds the client under the key.
abbrev pub IsCached : Str → ℕ → Manager → Type 0
IsCached key c m = (l : List ℕ) × (lookup key m.entries ≡ some l) × In c l

module _ (refs : ℕ → ℤ) where
  select-In :
      (entries : List ℕ) (r : ℤ) (c : ℕ)
      → In c entries
      → ltb_ℤ (refs c) r ≡ false
      → select_client refs entries r none ≢ none
  unfolding select_client
  select-In [] r c i le = elim i [ ]
  select-In (d ∷ ds) r c head le = ground (arith, select_some refs ds (refs d) d)
  select-In (d ∷ ds) r c (tail i) le = elim (Bool-cases (ltb_ℤ (refs d) r)) [
    | inl b ↦ ground (arith, select-In ds r c i le)
    | inr b ↦ ground (arith, select_some refs ds (refs d) d)
  ]

  not_none : (o : Option ℕ) → o ≢ none → (n : ℕ) × (o ≡ some n)
  not_none none h = absurd (h refl)
  not_none (some n) h = (n, refl)

  first_found :
      (l : List ℕ) (c : ℕ)
      → In c l
      → ltb_ℤ (refs c) (pos 0) ≡ false
      → (n : ℕ) × (get_client refs l ≡ some n)
  unfolding get_client
  first_found l c i le = not_none (select_client refs l (pos 0) none) (select-In l (pos 0) c i le)

  -- A request for a key that holds the client is answered as long as the client's count is not
  -- negative.
  pub cached_found :
      (m : Manager) (later : ℕ) (key : Str) (c : ℕ)
      → IsCached key c m
      → ltb_ℤ (refs c) (pos 0) ≡ false
      → (n : ℕ) × ((turn refs m later (get key)).1 ≡ some n)
  unfolding turn found
  cached_found m later key c (l, at, i) le =
      let (n, h) = first_found l c i le in (n, ap (found refs) at ∙ h)

  recycle-lookup :
      (entries : Dict (List ℕ)) (key : Str) (c : ℕ) (l : List ℕ)
      → lookup key entries ≡ some l
      → In c (recycle_clients refs l)
      → lookup key (recycle_all refs entries) ≡ some (recycle_clients refs l)
  unfolding recycle_all lookup
  recycle-lookup [] key c l h i = cc
  recycle-lookup ((k, v) ∷ es) key c l h i = elim (Bool-cases (str_eq k key)) [
    | inl b ↦
        let same : v ≡ l = some-injective v l (ground (arith, h, b)) in
        elim (List-cases (recycle_clients refs v)) [
          | inl q ↦ absurd (elim (subst (In c) (ap (recycle_clients refs) (sym same) ∙ q) i) [ ])
          | inr (x, xs, q) ↦ ground (arith, b, q, ap (recycle_clients refs) same)
        ]
    | inr b ↦
        let rest : lookup key es ≡ some l = ground (arith, h, b) in
        let ih = recycle-lookup es key c l rest i in
        elim (List-cases (recycle_clients refs v)) [
          | inl q ↦ ground (arith, b, q, ih)
          | inr (x, xs, q) ↦ ground (arith, b, q, ih)
        ]
  ]

  pub store-IsCached :
      (m : Manager) (now : ℕ) (key : Str) (c : ℕ) → IsCached key c (turn refs m now (store key c)).0
  unfolding turn
  store-IsCached m now key c =
      let l = add_client c (clients_of (lookup key m.entries)) in
      (
        l,
        ground (arith, lookup-insert key key l m.entries, str_eq_refl key),
        add_client-In c (clients_of (lookup key m.entries)),
      )

  -- No request and no clean-up takes a client away that has a session.
  pub turn-IsCached :
      (m : Manager) (now : ℕ) (r : Request) (key : Str) (c : ℕ)
      → IsCached key c m
      → ltb_ℤ (pos 0) (refs c) ≡ true
      → IsCached key c (turn refs m now r).0
  unfolding turn recycle_clients
  turn-IsCached m now tick key c (l, at, i) busy =
      elim (Bool-cases (ltb (m.latest_visited + 60000000000) now)) [
        | inr b ↦ (l, ground (arith, at, b), i)
        | inl b ↦
            let kept = In-keep (λ d. ltb_ℤ (pos 0) (refs d)) l c i busy in
            (
              recycle_clients refs l,
              ground (arith, b, recycle-lookup m.entries key c l at kept),
              kept,
            )
      ]
  turn-IsCached m now (get k) key c (l, at, i) busy = (l, at, i)
  turn-IsCached m now (search p) key c (l, at, i) busy = (l, at, i)
  turn-IsCached m now (store k d) key c (l, at, i) busy = elim (Bool-cases (str_eq k key)) [
    | inr b ↦ (
      l,
      ground (
        arith,
        at,
        b,
        lookup-insert k key (add_client d (clients_of (lookup k m.entries))) m.entries,
      ),
      i,
    )
    | inl b ↦
        let l' = add_client d (clients_of (lookup k m.entries)) in
        let same = (eq_iff k key).0 b in
        let old : clients_of (lookup k m.entries) ≡ l = ground (arith, at, same) in
        (
          l',
          ground (arith, b, lookup-insert k key l' m.entries),
          add_client-keeps d c (clients_of (lookup k m.entries)) (subst (In c) (sym old) i),
        )
  ]
