-- ===== src/Srvconn/Clients/Laws.antt =====
-- What the cache hands out and what it forgets.
use gojump.Prelude.{
  keep-In, In-keep, ℕ, Str, List, [], ◌∷◌, true, false, Option, none, some, In, head, tail, All,
  ◌≡◌, ◌≢◌, ◌↔◌, ◌⊎◌, inl, inr, refl, sym, ap, subst, arith, Bool-cases,
}
use gojump.Prelude.Dict.{Dict}
use gojump.Prelude.Int.{ℤ, pos, ltb_ℤ}
use mathlib.Core.Option.{some-injective}
use gojump.Srvconn.Clients.{select_client, get_client, recycle_clients, recycle_all}

module _ (refs : ℕ → ℤ) where
  -- `c` has a count that no client of the list exceeds.
  abbrev pub IsMost : ℕ → List ℕ → Type 0
  IsMost c entries = All (λ d. ltb_ℤ (refs c) (refs d) ≡ false) entries

  ltb_ℤ-below : (r d c : ℤ) → ltb_ℤ d r ≡ true → ltb_ℤ c r ≡ false → ltb_ℤ c d ≡ false
  ltb_ℤ-below r d c b le = ground arith

  ltb_ℤ-trans : (r d c : ℤ) → ltb_ℤ d r ≡ false → ltb_ℤ c d ≡ false → ltb_ℤ c r ≡ false
  ltb_ℤ-trans r d c b le = ground arith

  select_of :
      (entries : List ℕ) (r : ℤ) (s : Option ℕ) (c : ℕ)
      → select_client refs entries r s ≡ some c
      → (s ≡ some c) ⊎ In c entries
  unfolding select_client
  select_of [] r s c h = inl h
  select_of (d ∷ ds) r s c h = elim (Bool-cases (ltb_ℤ (refs d) r)) [
    | inl b ↦ elim (select_of ds r s c (ground arith)) [ inl q ↦ inl q | inr i ↦ inr (tail i) ]
    | inr b ↦ elim (select_of ds (refs d) (some d) c (ground arith)) [
      | inl q ↦ inr (subst (λ x. In x (d ∷ ds)) (some-injective d c q) head)
      | inr i ↦ inr (tail i)
    ]
  ]

  select-IsMost :
      (entries : List ℕ) (r : ℤ) (s : Option ℕ) (c : ℕ)
      → ((x : ℕ) → s ≡ some x → refs x ≡ r)
      → select_client refs entries r s ≡ some c
      → IsMost c entries × (ltb_ℤ (refs c) r ≡ false)
  unfolding select_client
  select-IsMost [] r s c hs h = (tt, ground (arith, hs c h))
  select-IsMost (d ∷ ds) r s c hs h = elim (Bool-cases (ltb_ℤ (refs d) r)) [
    | inl b ↦
        let (most, le) = select-IsMost ds r s c hs (ground arith) in
        ((ltb_ℤ-below r (refs d) (refs c) b le, most), le)
    | inr b ↦
        let (most, le) =
          select-IsMost ds (refs d) (some d) c (λ x q. ap refs (sym (some-injective d x q)))
            (ground arith) in
        ((le, most), ltb_ℤ-trans r (refs d) (refs c) b le)
  ]

  pub select_some :
      (entries : List ℕ) (r : ℤ) (c : ℕ) → select_client refs entries r (some c) ≢ none
  unfolding select_client
  select_some [] r c h = cc
  select_some (d ∷ ds) r c h = elim (Bool-cases (ltb_ℤ (refs d) r)) [
    | inl b ↦ select_some ds r c (ground arith)
    | inr b ↦ select_some ds (refs d) d (ground arith)
  ]

  -- The client that the cache hands out for a key is one of that key's clients, and none of them
  -- has more sessions than it.
  pub get_client-most :
      (entries : List ℕ) (c : ℕ)
      → get_client refs entries ≡ some c
      → In c entries × All (λ d. ltb_ℤ (refs c) (refs d) ≡ false) entries
  unfolding get_client
  get_client-most entries c h = elim (select_of entries (pos 0) none c h) [
    | inl q ↦ cc
    | inr i ↦ (i, (select-IsMost entries (pos 0) none c (λ x q. cc) h).0)
  ]

In-cases : {A : Type 0} (x y : A) (xs : List A) → In x (y ∷ xs) → (x ≡ y) ⊎ In x xs
In-cases x y xs head = inl refl
In-cases x y xs (tail i) = inr i

-- The cache holds the client under the key.
abbrev pub Holds : Str → ℕ → Dict (List ℕ) → Type 0
Holds key c entries = (cs : List ℕ) × In (key, cs) entries × In c cs

module _ (refs : ℕ → ℤ) where
  recycle_keeps :
      (entries : Dict (List ℕ)) (key : Str) (cs : List ℕ) (c : ℕ)
      → In (key, cs) entries
      → In c (recycle_clients refs cs)
      → In (key, recycle_clients refs cs) (recycle_all refs entries)
  unfolding recycle_all
  recycle_keeps [] key cs c j i = elim j [ ]
  recycle_keeps ((k, v) ∷ es) key cs c head i = here (recycle_clients refs cs) refl i
    where
      here :
          (kept : List ℕ)
          → recycle_clients refs cs ≡ kept
          → In c kept
          → In (key, recycle_clients refs cs) (recycle_all refs ((key, cs) ∷ es))
      here [] q i = elim i [ ]
      here (x ∷ xs) q i =
          let all : recycle_all refs ((key, cs) ∷ es)
              ≡ (key, recycle_clients refs cs) ∷ recycle_all refs es =
            ground arith in
          subst (In (key, recycle_clients refs cs)) (sym all) head
  recycle_keeps ((k, v) ∷ es) key cs c (tail j) i =
      there (recycle_keeps es key cs c j i) (recycle_clients refs v) refl
    where
      there :
          In (key, recycle_clients refs cs) (recycle_all refs es)
          → (kept : List ℕ) → recycle_clients refs v ≡ kept
          → In (key, recycle_clients refs cs) (recycle_all refs ((k, v) ∷ es))
      there k' [] q =
          let all : recycle_all refs ((k, v) ∷ es) ≡ recycle_all refs es = ground arith in
          subst (In (key, recycle_clients refs cs)) (sym all) k'
      there k' (x ∷ xs) q =
          let all : recycle_all refs ((k, v) ∷ es)
              ≡ (k, recycle_clients refs v) ∷ recycle_all refs es =
            ground arith in
          subst (In (key, recycle_clients refs cs)) (sym all) (tail k')

  recycle_from :
      (entries : Dict (List ℕ)) (key : Str) (kept : List ℕ)
      → In (key, kept) (recycle_all refs entries)
      → (cs : List ℕ) × In (key, cs) entries × (kept ≡ recycle_clients refs cs)
  unfolding recycle_all
  recycle_from [] key kept i = elim i [ ]
  recycle_from ((k, v) ∷ es) key kept i =
      split (recycle_from es key kept) (recycle_clients refs v) refl
    where
      later :
          (cs : List ℕ) × In (key, cs) es × (kept ≡ recycle_clients refs cs)
          → (cs : List ℕ) × In (key, cs) ((k, v) ∷ es) × (kept ≡ recycle_clients refs cs)
      later (cs, j, q) = (cs, tail j, q)

      split :
          (In (key, kept) (recycle_all refs es)
            → (cs : List ℕ) × In (key, cs) es × (kept ≡ recycle_clients refs cs))
          → (l : List ℕ) → recycle_clients refs v ≡ l
          → (cs : List ℕ) × In (key, cs) ((k, v) ∷ es) × (kept ≡ recycle_clients refs cs)
      split again [] q =
          let all : recycle_all refs ((k, v) ∷ es) ≡ recycle_all refs es = ground arith in
          later (again (subst (In (key, kept)) all i))
      split again (x ∷ xs) q =
          let all : recycle_all refs ((k, v) ∷ es)
              ≡ (k, recycle_clients refs v) ∷ recycle_all refs es =
            ground arith in
          elim (In-cases (key, kept) (k, recycle_clients refs v) (recycle_all refs es)
            (subst (In (key, kept)) all i)) [
              | inl same ↦
                  let j : In (key, v) ((k, v) ∷ es) =
                    subst (λ a. In (a, v) ((k, v) ∷ es)) (sym (ap (λ r. r.0) same)) head in
                  (v, j, ap (λ r. r.1) same)
              | inr j ↦ later (again j)
            ]

  -- The minute's clean-up forgets exactly the clients that have no session: a key holds a client
  -- afterwards if and only if it held it before and the client's count is above 0.
  pub recycle_all_iff :
      (entries : Dict (List ℕ)) (key : Str) (c : ℕ)
      → Holds key c (recycle_all refs entries)
        ↔ (Holds key c entries × (ltb_ℤ (pos 0) (refs c) ≡ true))
  unfolding recycle_clients
  recycle_all_iff entries key c = (forth, back)
    where
      forth :
          Holds key c (recycle_all refs entries)
          → Holds key c entries × (ltb_ℤ (pos 0) (refs c) ≡ true)
      forth (kept, i, j) =
          let (cs, k, q) = recycle_from entries key kept i in
          let (l, u) = keep-In (λ d. ltb_ℤ (pos 0) (refs d)) cs c (subst (In c) q j) in
          ((cs, k, l), u)

      back :
          Holds key c entries × (ltb_ℤ (pos 0) (refs c) ≡ true)
          → Holds key c (recycle_all refs entries)
      back ((cs, i, j), u) =
          let kept = In-keep (λ d. ltb_ℤ (pos 0) (refs d)) cs c j u in
          (recycle_clients refs cs, recycle_keeps entries key cs c i kept, kept)
