-- ===== src/Srvconn/Ssh/Count.antt =====
-- The count of a client's sessions, pkg/srvconn/ssh.go, under every interleaving of AcquireSession
-- and ReleaseSession.
use gojump.Prelude.{
  ℕ, ◌+◌, List, [], ◌∷◌, false, not, none, some, ◌==◌, ==_iff, keep, length, In, head, tail, Nodup,
  Nodup-keep, keep-In, In-keep, ◌≡◌, ◌≢◌, ◌↔◌, refl, sym, ◌∙◌, subst, arith, ◌<◌, Bool-cases, inl,
  inr,
}
use gojump.Prelude.Int.{pos, sub_ℕ, ltb_ℤ}
use gojump.Srvconn.Ssh.{SshClient, acquire_begin, acquire_end, release_begin, release_end}

-- What the connections of one client do, each in its own time: a session comes under a new name,
-- and is released once, by its owner.
pub data Step : SshClient → SshClient → Type 0 where
  begin : (c : SshClient) → Step c (acquire_begin c)
  failed : (c : SshClient) → 0 < c.acquiring → Step c (acquire_end c none)
  opened :
      (c : SshClient) (s : ℕ)
      → 0 < c.acquiring
      → ¬ In s c.sessions
      → Step c (acquire_end c (some s))
  releasing :
      (c : SshClient) (s : ℕ) → In s c.sessions → ¬ In s c.releasing → Step c (release_begin c s)
  released : (c : SshClient) (s : ℕ) → In s c.releasing → Step c (release_end c s)

pub data Reach (c : SshClient) : SshClient → Type 0 where
  here : Reach c c
  next : {d d' : SshClient} → Reach c d → Step d d' → Reach c d'

-- The count is what is open or on its way, less what is being released.
pub record IsCounted (c : SshClient) : Type 0 where
  pub count : c.ref_count ≡ sub_ℕ (length c.sessions + c.acquiring) (length c.releasing)
  pub distinct : Nodup c.sessions
  pub once : Nodup c.releasing
  pub own : (s : ℕ) → In s c.releasing → In s c.sessions

keep_others : ℕ → List ℕ → List ℕ
keep_others s l = keep (λ x. not (x == s)) l

keep_others_absent : (s : ℕ) (l : List ℕ) → ¬ In s l → keep_others s l ≡ l
unfolding keep_others
keep_others_absent s [] n = refl
keep_others_absent s (x ∷ xs) n = elim (Bool-cases (x == s)) [
  | inl e ↦ absurd (n (subst (λ y. In y (x ∷ xs)) ((==_iff x s).0 e) head))
  | inr e ↦ ground (arith, keep_others_absent s xs (λ i. n (tail i)))
]

-- Taking one of distinct entries out leaves one fewer.
length-keep_others :
    (s : ℕ) (l : List ℕ) → Nodup l → In s l → length (keep_others s l) + 1 ≡ length l
unfolding keep_others
length-keep_others s [] n i = elim i [ ]
length-keep_others s (x ∷ xs) n head = ground (arith, keep_others_absent s xs n.0)
length-keep_others s (x ∷ xs) n (tail i) = elim (Bool-cases (x == s)) [
  | inl e ↦ absurd (n.0 (subst (λ y. In y xs) (sym ((==_iff x s).0 e)) i))
  | inr e ↦ ground (arith, length-keep_others s xs n.1 i)
]

keep_others-In : (s x : ℕ) (l : List ℕ) → In x l → x ≢ s → In x (keep_others s l)
unfolding keep_others
keep_others-In s x l i ne = In-keep _ l x i (ground arith)

sub_both : (a b a' b' : ℕ) → a + b' ≡ a' + b → sub_ℕ a b ≡ sub_ℕ a' b'
sub_both a b a' b' h = ground arith

Step-IsCounted : {c d : SshClient} → Step c d → IsCounted c → IsCounted d
unfolding acquire_begin acquire_end release_begin release_end keep_others
Step-IsCounted (begin c) v = record {
  count = ground (arith, v.count);
  distinct = v.distinct;
  once = v.once;
  own = v.own;
}
Step-IsCounted (failed c p) v = record {
  count = ground (arith, v.count);
  distinct = v.distinct;
  once = v.once;
  own = v.own;
}
Step-IsCounted (opened c s p n) v = record {
  count = ground (arith, v.count);
  distinct = (n, v.distinct);
  once = v.once;
  own = λ x i. tail (v.own x i);
}
Step-IsCounted (releasing c s i n) v = record {
  count = ground (arith, v.count);
  distinct = v.distinct;
  once = (n, v.once);
  own = own' i;
}
  where
    own' : In s c.sessions → (x : ℕ) → In x (s ∷ c.releasing) → In x c.sessions
    own' j _ head = j
    own' j x (tail k) = v.own x k
Step-IsCounted (released c s i) v = record {
  count =
      v.count
      ∙ sub_both _ _ _ _ (
          omega (
            arith,
            length-keep_others s c.sessions v.distinct (v.own s i),
            length-keep_others s c.releasing v.once i,
          ));
  distinct = Nodup-keep _ c.sessions v.distinct;
  once = Nodup-keep _ c.releasing v.once;
  own = λ x j.
      let (k, ne) = keep-In _ c.releasing x j in
      keep_others-In s x c.sessions (v.own x k) (ground (arith, ne));
}

-- From a fresh client on, however its connections interleave: the count is the number of sessions
-- that are open or on their way, less those that are being released.
pub Reach-IsCounted : {c d : SshClient} → IsCounted c → Reach c d → IsCounted d
Reach-IsCounted v here = v
Reach-IsCounted v (next r s) = Step-IsCounted s (Reach-IsCounted v r)

-- However the calls on a client interleave, from a counted client on: when none is under way, the
-- count is the number of its sessions, and the cache counts it as unused exactly when it has none.
pub quiet_count :
    (c d : SshClient)
    → IsCounted c
    → Reach c d
    → d.acquiring ≡ 0
    → d.releasing ≡ []
    → (d.ref_count ≡ pos (length d.sessions))
      × ((ltb_ℤ (pos 0) d.ref_count ≡ false) ↔ (d.sessions ≡ []))
quiet_count c d v r idle quiet =
    let n = (Reach-IsCounted v r).count in
    let exact : d.ref_count ≡ pos (length d.sessions) = ground (arith, n) in
    (exact, rw exact (unused d.sessions))
  where
    unused : (l : List ℕ) → (ltb_ℤ (pos 0) (pos (length l)) ≡ false) ↔ (l ≡ [])
    unused [] = (λ h. refl, λ h. refl)
    unused (x ∷ xs) = (λ h. absurd (ground arith), λ h. absurd (cc))
