-- ===== src/Handler/Session/Laws.antt =====
-- Every login of a whole session, refreshes included.
use gojump.Prelude.{
  ℕ, Str, List, [], ◌∷◌, Bool, true, false, Option, none, some, ◌⊎◌, codes, In, head, tail, map,
  ◌++◌, subst, All, All-append, ◌≡◌, refl, Bool-cases, inl, inr, ◌∙◌,
}
use gojump.Prelude.Dict.{lookup}
use gojump.Model.{Node, User, TerminalConfig}
use gojump.Store.{Engine, Error}
use gojump.Core.{Config}
use gojump.Core.Assets.{Item, get_all_user_perms_assets}
use gojump.Proxy.Server.{Server}
use gojump.Proxy.Server.Flow.{Shared, bridged}
use gojump.Handler.Select.{
  SelectType, Select, Action, display, proxy, Request, pick, step, set_all_local_data,
  get_page_size, has_just_one_asset,
}
use gojump.Handler.Select.Allowed.{IsAllowed, step-IsFine}
use gojump.Handler.Dispatch.{Command, quit, show_nodes, show_help, refresh, ask, interpret}
use gojump.Handler.Login.{Visit, served, select_proxy}
use gojump.Handler.Login.Laws.{Opened, select_proxy_permitted}
use gojump.Handler.Session.{
  Interactive, Login, loaded, logged_in, Line, Journal, initial, refresh_data, log_in, serve_all,
  lines_of, interactive,
}

module _ (e : Engine) (sort_rows : List Item → List Item) (sort_nodes : List Node → List Node)
    (sort_keeps : (l : List Item) (v : Item) → In v (sort_rows l) → In v l)
    (connect : Server → Error ⊎ ℕ) (describe : Error → Str) (during : Shared e → Shared e)
    (cfg : Config) (cache : Str → Option ℕ) (user : User) where
  -- One of the states listed the row among the assets of the user's nodes.
  abbrev IsListedIn : List (Shared e) → Item → Type 0
  IsListedIn seen row =
      (w : Shared e) × In w seen × In row (get_all_user_perms_assets e w.core.db user.node_ids).0

  abbrev Served : Login (Shared e) e.Db → Type 0
  Served l =
      (t : SelectType) × ((select_proxy e connect describe during cfg cache t l.at user l.row
          l.visit).1
        ≡ l.ended)

  -- A login to a listed row that ended as Proxy ends.
  abbrev IsMade : List (Shared e) → Login (Shared e) e.Db → Type 0
  IsMade seen l = IsListedIn seen l.row × Served l

  abbrev Log : Type 0
  Log = Journal e sort_rows sort_nodes connect describe during cfg cache user

  -- Every login of the journal is to a row that was loaded before it.
  abbrev IsLogged : List (Shared e) → Log → Type 0
  IsLogged seen [] = Unit
  IsLogged seen (loaded w ∷ rest) = IsLogged (w ∷ seen) rest
  IsLogged seen (logged_in l ∷ rest) = IsMade seen l × IsLogged seen rest

  abbrev Fine : List (Shared e) → Select → Type 0
  Fine seen u = IsAllowed (IsListedIn seen) u

  Fine-more : (w : Shared e) (seen : List (Shared e)) (u : Select) → Fine seen u → Fine (w ∷ seen) u
  Fine-more w seen u f = record {
    shown = λ v i. let (w0, j, k) = f.shown v i in (w0, tail j, k);
    own = λ v i. let (w0, j, k) = f.own v i in (w0, tail j, k);
  }

  logins-IsLogged :
      (seen : List (Shared e)) (here : List (Login (Shared e) e.Db)) (later : Log)
      → All (IsMade seen) here
      → IsLogged seen later
      → IsLogged seen (map logged_in here ++ later)
  logins-IsLogged seen [] later h k = k
  logins-IsLogged seen (l ∷ ls) later h k = (h.0, logins-IsLogged seen ls later h.1 k)

  All-IsLogged :
      (seen : List (Shared e)) (here : List (Login (Shared e) e.Db))
      → All (IsMade seen) here
      → IsLogged seen (map logged_in here)
  All-IsLogged seen [] h = tt
  All-IsLogged seen (l ∷ ls) h = (h.0, All-IsLogged seen ls h.1)

  log_in-IsMade :
      (seen : List (Shared e)) (w : Shared e) (v : Visit e.Db) (u : Select) (a : Action)
      → ((row : Item) → a ≡ proxy row → IsListedIn seen row)
      → All
          (IsMade seen)
          (log_in e sort_rows sort_nodes connect describe during cfg cache user w v (u, a)).1
  unfolding log_in
  log_in-IsMade seen w v u display h = tt
  log_in-IsMade seen w v u (proxy row) h = ((h row refl, (u.current_type, refl)), tt)

  serve_all-IsMade :
      (seen : List (Shared e)) (rs : List Request) (w : Shared e) (u : Select) (v : Visit e.Db)
      → Fine seen u
      → Fine seen
          (serve_all e sort_rows sort_nodes connect describe during cfg cache user w u v rs).1
        × All
            (IsMade seen)
            (serve_all e sort_rows sort_nodes connect describe during cfg cache user w u v rs).2
  unfolding serve_all
  serve_all-IsMade seen [] w u v h = (h, tt)
  serve_all-IsMade seen (r ∷ rs) w u v h =
      let moved = step sort_rows u r in
      let fine = step-IsFine sort_rows sort_keeps (IsListedIn seen) u r h in
      let (w', here) =
        log_in e sort_rows sort_nodes connect describe during cfg cache user w v moved in
      let rest = serve_all-IsMade seen rs w' moved.0 v fine.0 in
      (
        rest.0,
        All-append (IsMade seen) here
            (serve_all e sort_rows sort_nodes connect describe during cfg cache user w' moved.0 v
              rs).2
            (log_in-IsMade seen w v moved.0 moved.1 fine.1) rest.1,
      )

  kept-Fine :
      (seen : List (Shared e)) (err : Option Error) (old new : Select)
      → Fine seen old
      → Fine seen new
      → Fine seen (elim err [ some x ↦ old | none ↦ new ])
  kept-Fine seen none old new fo fn = fn
  kept-Fine seen (some x) old new fo fn = fo

  refresh-Fine :
      (seen : List (Shared e)) (w : Shared e) (h : Interactive)
      → Fine seen h.select
      → Fine
          (w ∷ seen)
          (refresh_data e sort_rows sort_nodes connect describe during cfg cache user w h).select
  unfolding refresh_data set_all_local_data
  refresh-Fine seen w h f =
      let (rows, nodes, err) = get_all_user_perms_assets e w.core.db user.node_ids in
      let old = Fine-more w seen h.select f in
      kept-Fine (w ∷ seen) err h.select (set_all_local_data h.select rows) old
        (record { shown = old.shown; own = λ v i. (w, head, i) })

  initial-Fine :
      (w : Shared e) (conf : TerminalConfig)
      → Fine
          (w ∷ [])
          (initial e sort_rows sort_nodes connect describe during cfg cache user w conf).select
  unfolding initial set_all_local_data
  initial-Fine w conf = record { shown = λ v i. elim i [ ]; own = λ v i. (w, head, i) }

  abbrev after_line :
      Shared e
      → Interactive
      → Bool
      → List (Line e sort_rows sort_nodes connect describe during cfg cache user)
      → Log
  after_line w h b ls =
      (lines_of e sort_rows sort_nodes connect describe during cfg cache user w h b ls).1

  lines-IsLogged :
      (seen : List (Shared e))
      (ls : List (Line e sort_rows sort_nodes connect describe during cfg cache user))
      (w : Shared e) (h : Interactive) (initialed : Bool)
      → Fine seen h.select
      → IsLogged seen (after_line w h initialed ls)
  unfolding lines_of
  lines-IsLogged seen [] w h initialed f = tt
  lines-IsLogged seen (l ∷ ls) w h initialed f =
      go (interpret h.nodes initialed size l.text) refl
        (λ seen' h' b f'. lines-IsLogged seen' ls (l.meanwhile w) h' b f')
        (λ rs.
          lines-IsLogged seen ls _ _ true
            (serve_all-IsMade seen rs (l.meanwhile w) h.select l.visit f).0)
    where
      size : ℕ
      size = get_page_size h.terminal_conf.asset_list_page_size l.height

      go :
          (c : Command)
          → interpret h.nodes initialed size l.text ≡ c
          → ((seen' : List (Shared e)) (h' : Interactive) (b : Bool)
              → Fine seen' h'.select
              → IsLogged seen' (after_line (l.meanwhile w) h' b ls))
          → ((rs : List Request)
              → let (w', u', here) =
                  serve_all e sort_rows sort_nodes connect describe during cfg cache user
                    (l.meanwhile w)
                    h.select
                    l.visit
                    rs in
                IsLogged seen (after_line w' (record h { select = u' }) true ls))
          → IsLogged seen (after_line w h initialed (l ∷ ls))
      go quit q ih after = rw (q, lines_of, IsLogged) tt
      go show_nodes q ih after =
          rw (q, lines_of, IsLogged) (ih seen (record h { nodes = sort_nodes h.nodes }) true f)
      go show_help q ih after = rw (q, lines_of, IsLogged) (ih seen h false f)
      go refresh q ih after =
          rw (q, lines_of, IsLogged)
            (ih (l.meanwhile w ∷ seen)
              (refresh_data e sort_rows sort_nodes connect describe during cfg cache user
                (l.meanwhile w) h)
              true (refresh-Fine seen (l.meanwhile w) h f))
      go (ask rs) q ih after =
          rw (q, lines_of, IsLogged)
            (logins-IsLogged seen _ _
              (serve_all-IsMade seen rs (l.meanwhile w) h.select l.visit f).1 (after rs))

  interactive-IsLogged :
      (w : Shared e) (conf : TerminalConfig) (height : ℕ) (v : Visit e.Db)
      (ls : List (Line e sort_rows sort_nodes connect describe during cfg cache user))
      → IsLogged []
          (interactive e sort_rows sort_nodes connect describe during cfg cache user w conf height v
            ls).1
  unfolding interactive
  interactive-IsLogged w conf height v ls =
      let h = initial e sort_rows sort_nodes connect describe during cfg cache user w conf in
      let size = get_page_size conf.asset_list_page_size height in
      elim (Bool-cases (has_just_one_asset h.select)) [
        | inl one ↦ rw one (
            All-IsLogged (w ∷ []) _
              (serve_all-IsMade (w ∷ []) (pick size [] ∷ []) w h.select v (initial-Fine w conf)).1)
        | inr many ↦ rw many (lines-IsLogged (w ∷ []) ls w h false (initial-Fine w conf))
      ]

  -- The row was listed by a state that was seen at first or that the journal loaded.
  logged-IsMade :
      (seen : List (Shared e)) (before after : Log) (l : Login (Shared e) e.Db)
      → IsLogged seen (before ++ (logged_in l ∷ after))
      → ((w : Shared e) × (In w seen ⊎ In (loaded w) before)
          × In l.row (get_all_user_perms_assets e w.core.db user.node_ids).0)
        × Served l
  logged-IsMade seen [] after l h = let (w, i, k) = h.0.0 in ((w, inl i, k), h.0.1)
  logged-IsMade seen (logged_in m ∷ before) after l h =
      let ((w, i, k), s) = logged-IsMade seen before after l h.1 in
      ((w, elim i [ inl j ↦ inl j | inr j ↦ inr (tail j) ], k), s)
  logged-IsMade seen (loaded v ∷ before) after l h =
      let ((w, i, k), s) = logged-IsMade (v ∷ seen) before after l h in ((w, found w i, k), s)
    where
      found :
          (w : Shared e)
          → In w (v ∷ seen) ⊎ In (loaded w) before
          → In w seen ⊎ In (loaded w) (loaded v ∷ before)
      found w (inl head) = inr head
      found w (inl (tail i)) = inl i
      found w (inr j) = inr (tail j)

  -- Whatever lines a user types in a session, refreshes included, and whatever other connections do
  -- between the lines, with a sort of the rows that adds none and any sort of the nodes: a login that
  -- ends in a bridged connection is to a row that the database listed among the assets of the user's
  -- nodes when this session loaded its rows, at its start or at a refresh before the login, and it
  -- passed all the checks of a login in the state that it started in.
  pub session_permitted :
      (w : Shared e) (conf : TerminalConfig) (height : ℕ) (v : Visit e.Db)
      (ls : List (Line e sort_rows sort_nodes connect describe during cfg cache user))
      (before after : Journal e sort_rows sort_nodes connect describe during cfg cache user)
      (l : Login (Shared e) e.Db)
      → (interactive e sort_rows sort_nodes connect describe during cfg cache user w conf height v
          ls).1
        ≡ before ++ (logged_in l ∷ after)
      → l.ended ≡ served bridged
      → ((w0 : Shared e) × In (loaded w0) before
          × In l.row (get_all_user_perms_assets e w0.core.db user.node_ids).0)
        × (target_id : Str) × (lookup (codes "id") l.row ≡ some target_id)
        × Opened e connect describe during cfg cache l.at user target_id l.visit
  session_permitted w conf height v ls before after l same h =
      let ((w0, i, k), (t, ended)) =
        logged-IsMade [] before after l
          (subst (IsLogged []) same (interactive-IsLogged w conf height v ls)) in
      let (target_id, found, ok) =
        select_proxy_permitted e connect describe during cfg cache t l.at user l.row l.visit
          (ended ∙ h) in
      ((w0, elim i [ inl j ↦ absurd (elim j [ ]) | inr j ↦ j ], k), target_id, found, ok)
