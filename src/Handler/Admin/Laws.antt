-- ===== src/Handler/Admin/Laws.antt =====
-- What the administrator's lines can change, and which of them end the connection by a panic.
use gojump.Prelude.{
  ℕ, Str, List, [], ◌∷◌, Bool, true, false, ◌&&◌, Option, some, if◌then◌else◌, str_eq, eq_iff,
  split, get_elem?, ◌≡◌, ◌≢◌, ◌⊎◌, refl, sym, inl, inr, subst, arith, ◌∙◌, Option-cases, Bool-cases,
}
use gojump.Prelude.Int.{ℤ}
use gojump.Prelude.Atoi.{trim_space}
use gojump.Model.{LoginTicket}
use gojump.Store.{Engine}
use gojump.Core.{Core}
use gojump.Core.Otp.{gen_otpassword}
use gojump.Core.Tickets.{ticket_open, ticket_approved, ticket_rejected, update_ticket_state}
use gojump.Core.Tickets.Sql.{TicketSql, updated}
use gojump.Core.Tickets.Laws.{get_elem?-map}
use gojump.Handler.Admin.{
  AdminLine, Output, Turn, go_on, left, panicked, with_argument, decide, decided, handed_out,
  command, admin_line, serve_lines, admin_system,
}

-- A ticket after the lines of an administrator: as it was, or it was pending and carries a decision
-- under the administrator's name.
pub data Ruled (username : Str) (t t' : LoginTicket) : Type 0 where
  same : t' ≡ t → Ruled username t t'
  ruled :
      t.state ≡ ticket_open
      → t'.approver ≡ username
      → (t'.state ≡ ticket_approved) ⊎ (t'.state ≡ ticket_rejected)
      → t'.ticket_id ≡ t.ticket_id
      → Ruled username t t'

-- The two states of a decision.
abbrev Decision : Str → Type 0
Decision state = (state ≡ ticket_approved) ⊎ (state ≡ ticket_rejected)

Decision-ne-open : (s : Str) → Decision s → s ≢ ticket_open
Decision-ne-open s (inl e) h = cc
Decision-ne-open s (inr e) h = cc

Ruled-trans : (u : Str) {a b c : LoginTicket} → Ruled u a b → Ruled u b c → Ruled u a c
Ruled-trans u {a} {b} {c} (same e) r = subst (λ x. Ruled u x c) e r
Ruled-trans u {a} {b} {c} (ruled o n d i) (same f) =
    subst (λ x. Ruled u a x) (sym f) (ruled o n d i)
Ruled-trans u (ruled o n d i) (ruled o' n' d' i') = absurd (Decision-ne-open _ d o')

updated-Ruled :
    (state user date id : Str) (t : LoginTicket)
    → Decision state
    → Ruled user t (updated state user date id ticket_open t)
updated-Ruled state user date id t d =
    elim (Bool-cases (str_eq t.ticket_id id && str_eq t.state ticket_open)) [
      | inl e ↦ rw e (ruled (ground (arith, eq_iff t.state ticket_open)) refl d refl)
      | inr e ↦ rw e (same refl)
    ]

module _ (e : Engine) (sql : TicketSql e) (username : Str) where
  open sql use {tickets, update}

  -- What the administrator may do to the state of the program.
  pub record IsRuled (c c' : Core e.Db) : Type 0 where
    pub ticket :
        (i : ℕ) (t : LoginTicket)
        → get_elem? (tickets c.db) i ≡ some t
        → (t' : LoginTicket) × (get_elem? (tickets c'.db) i ≡ some t') × Ruled username t t'
    pub sessions : c'.session ≡ c.session
    pub counts : c'.try_login_count ≡ c.try_login_count

  IsRuled-same :
      (c c' : Core e.Db)
      → c'.db ≡ c.db
      → c'.session ≡ c.session
      → c'.try_login_count ≡ c.try_login_count
      → IsRuled c c'
  IsRuled-same c c' d s n = record {
    ticket = λ i t h. (t, ap_db i t h, same refl);
    sessions = s;
    counts = n;
  }
    where
      ap_db :
          (i : ℕ) (t : LoginTicket)
          → get_elem? (tickets c.db) i ≡ some t
          → get_elem? (tickets c'.db) i ≡ some t
      ap_db i t h = subst (λ x. get_elem? (tickets x) i ≡ some t) (sym d) h

  IsRuled-trans : (a b c : Core e.Db) → IsRuled a b → IsRuled b c → IsRuled a c
  IsRuled-trans a b c h k = record {
    ticket = λ i t g.
        let (t1, g1, r1) = h.ticket i t g in
        let (t2, g2, r2) = k.ticket i t1 g1 in (t2, g2, Ruled-trans username r1 r2);
    sessions = k.sessions ∙ h.sessions;
    counts = k.counts ∙ h.counts;
  }

  update-Ruled :
      (db : e.Db) (id state date : Str) (i : ℕ) (t : LoginTicket)
      → Decision state
      → get_elem? (tickets db) i ≡ some t
      → (t' : LoginTicket) × (get_elem?
            (tickets (update_ticket_state e db id state username date).0)
            i
          ≡ some t')
        × Ruled username t t'
  unfolding update_ticket_state
  update-Ruled db id state date i t d h =
      elim (Option-cases (update_ticket_state e db id state username date).1) [
        | inl ok ↦ (
          updated state username date id ticket_open t,
          ground (
            arith,
            update db state username date id ticket_open,
            get_elem?-map (updated state username date id ticket_open) (tickets db) i t,
          ),
          updated-Ruled state username date id t d,
        )
        | inr (x, bad) ↦
            (t, ground (arith, update db state username date id ticket_open), same refl)
      ]

  decide-IsRuled :
      (c : Core e.Db) (id state date : Str)
      → Decision state
      → IsRuled c (decide e username c id state date).0
  unfolding decide
  decide-IsRuled c id state date d = record {
    ticket = λ i t h. update-Ruled c.db id state date i t d h;
    sessions = refl;
    counts = refl;
  }

  -- A line that goes on has done no more than that.
  data TurnIsRuled (c : Core e.Db) : Turn e.Db → Type 0 where
    continued : (c' : Core e.Db) (out : List Output) → IsRuled c c' → TurnIsRuled c (go_on c' out)
    has_left : TurnIsRuled c left
    has_panicked : TurnIsRuled c panicked

  if-TurnIsRuled :
      (c : Core e.Db) (b : Bool) (x y : Turn e.Db)
      → TurnIsRuled c x
      → TurnIsRuled c y
      → TurnIsRuled c (if b then x else y)
  if-TurnIsRuled c true x y p q = p
  if-TurnIsRuled c false x y p q = q

  argument-IsRuled :
      (c : Core e.Db) (words : List Str) (f : Str → Turn e.Db)
      → ((w : Str) → TurnIsRuled c (f w))
      → TurnIsRuled c (with_argument words f)
  unfolding with_argument
  argument-IsRuled c [] f h = has_panicked
  argument-IsRuled c (w ∷ []) f h = has_panicked
  argument-IsRuled c (w ∷ v ∷ ws) f h = h v

  gen-IsRuled : (c : Core e.Db) (name pass : Str) → IsRuled c (gen_otpassword c name pass).0
  unfolding gen_otpassword
  gen-IsRuled c name pass =
      IsRuled-same c (gen_otpassword c name pass).0 (ground arith) (ground arith) (ground arith)

  module _ (rune_count : Str → ℕ) (format_time : ℤ → Str) (config_text : Option Str) where
    command-IsRuled :
        (c : Core e.Db) (words : List Str) (l : AdminLine)
        → TurnIsRuled c (command e username rune_count format_time config_text c words l)
    unfolding command decided handed_out
    command-IsRuled c words l =
        let stays : IsRuled c c = IsRuled-same c c refl refl refl in
        let approves : (w : Str) → IsRuled c (decide e username c w ticket_approved l.date).0 =
          λ w. decide-IsRuled c w ticket_approved l.date (inl refl) in
        let rejects : (w : Str) → IsRuled c (decide e username c w ticket_rejected l.date).0 =
          λ w. decide-IsRuled c w ticket_rejected l.date (inr refl) in
        let draws : (w : Str) → IsRuled c (gen_otpassword c w l.drawn).0 =
          λ w. gen-IsRuled c w l.drawn in
        search (if-TurnIsRuled, argument-IsRuled, continued, has_left) depth 14

    line-IsRuled :
        (c : Core e.Db) (line : Str) (l : AdminLine)
        → TurnIsRuled c (admin_line e username rune_count format_time config_text c line l)
    unfolding admin_line
    line-IsRuled c [] l = continued c _ (IsRuled-same c c refl refl refl)
    line-IsRuled c (ch ∷ rest) l =
        if-TurnIsRuled c _ _ _ (continued c _ (IsRuled-same c c refl refl refl))
          (if-TurnIsRuled c _ _ _ has_left (command-IsRuled c (split (ch ∷ rest) b' ') l))

    lines-IsRuled :
        (lines : List AdminLine) (c : Core e.Db)
        → IsRuled c (serve_lines e username rune_count format_time config_text c lines).0
    unfolding serve_lines
    lines-IsRuled [] c = IsRuled-same c c refl refl refl
    lines-IsRuled (l ∷ ls) c =
        after (admin_line e username rune_count format_time config_text c (trim_space l.line) l)
          (line-IsRuled c (trim_space l.line) l) refl (λ c'. lines-IsRuled ls c')
      where
        after :
            (t : Turn e.Db)
            → TurnIsRuled c t
            → admin_line e username rune_count format_time config_text c (trim_space l.line) l ≡ t
            → ((c' : Core e.Db)
                → IsRuled c' (serve_lines e username rune_count format_time config_text c' ls).0)
            → IsRuled c (serve_lines e username rune_count format_time config_text c (l ∷ ls)).0
        after _ (continued c' out h) q ih = rw (q, serve_lines) (IsRuled-trans c c' _ h (ih c'))
        after _ has_left q ih = rw (q, serve_lines) (IsRuled-same c c refl refl refl)
        after _ has_panicked q ih = rw (q, serve_lines) (IsRuled-same c c refl refl refl)

    -- Whatever lines an administrator types, each ticket is afterwards as it was, or it was pending
    -- and is now approved or rejected under the administrator's name. The sessions and the counts of
    -- failed logins stay.
    pub admin_rules :
        (c : Core e.Db) (lines : List AdminLine)
        → IsRuled c (admin_system e username rune_count format_time config_text c lines).0
    unfolding admin_system
    admin_rules c lines = lines-IsRuled lines c
