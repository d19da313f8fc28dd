-- ===== src/Handler/Session.antt =====
-- A whole session of InteractiveHandler (pkg/handler/interactive.go and dispatch.go): Initial, the
-- lines of the client with the logins that they start, and refreshAssetsAndNodesData. A line comes
-- with the height of the terminal, what a login of that line finds (`Visit`), and what the other
-- connections did since the line before (`meanwhile`).
pub mod Laws
use gojump.Prelude.{
  map, ℕ, Str, List, [], ◌∷◌, ◌++◌, Bool, true, false, Option, none, some, ◌⊎◌, if◌then◌else◌,
}
use gojump.Model.{Node, User, TerminalConfig}
use gojump.Store.{Engine, Error}
use gojump.Core.{Config}
use gojump.Core.Assets.{Item, no_node, get_all_user_perms_assets, get_terminal_config}
use gojump.Proxy.Server.{Server}
use gojump.Proxy.Server.Flow.{Shared}
use gojump.Handler.Page.{no_pages}
use gojump.Handler.Select.{
  Select, unset, Action, display, proxy, Request, pick, step, set_all_local_data, get_page_size,
  has_just_one_asset,
}
use gojump.Handler.Dispatch.{Command, quit, show_nodes, show_help, refresh, ask, interpret}
use gojump.Handler.Login.{Visit, Ended, select_proxy}

-- The state of the handler.
pub record Interactive : Type 0 where
  pub select : Select
  pub nodes : List Node
  pub terminal_conf : TerminalConfig

pub record ClientLine (World : Type 0) (Db : Type 0) : Type 0 where
  pub text : Str
  pub height : ℕ
  pub visit : Visit Db
  pub meanwhile : World → World

-- A login: the row, the state that it started in, and its end.
pub record Login (World : Type 0) (Db : Type 0) : Type 0 where
  pub row : Item
  pub at : World
  pub visit : Visit Db
  pub ended : Ended

-- What happened in a session: the rows were loaded from a state, or a login ended.
pub data Entry (World : Type 0) (Db : Type 0) : Type 0 where
  loaded : World → Entry World Db
  logged_in : Login World Db → Entry World Db

abbrev pub empty_select : Select
empty_select = record {
  current_type = unset;
  search_keys = [];
  has_pre = false;
  has_next = false;
  all_local_data = [];
  selected_node = no_node;
  current_result = [];
  suggests = [];
  page = no_pages;
}

module _ (e : Engine) (sort_rows : List Item → List Item) (sort_nodes : List Node → List Node)
    (connect : Server → Error ⊎ ℕ) (describe : Error → Str) (during : Shared e → Shared e)
    (cfg : Config) (cache : Str → Option ℕ) (user : User) where
  abbrev pub Line : Type 0
  Line = ClientLine (Shared e) e.Db

  abbrev pub Logins : Type 0
  Logins = List (Login (Shared e) e.Db)

  abbrev pub Journal : Type 0
  Journal = List (Entry (Shared e) e.Db)

  -- Initial: an error leaves no rows and no nodes.
  unfoldable pub initial : Shared e → TerminalConfig → Interactive
  initial w conf =
      let (rows, nodes, err) = get_all_user_perms_assets e w.core.db user.node_ids in
      record { select = set_all_local_data empty_select rows; nodes = nodes; terminal_conf = conf }

  -- refreshAssetsAndNodesData: either half keeps what there was if its query fails. The page that is
  -- shown stays.
  unfoldable pub refresh_data : Shared e → Interactive → Interactive
  refresh_data w h =
      let (rows, nodes, err) = get_all_user_perms_assets e w.core.db user.node_ids in
      let (conf, err2) = get_terminal_config e w.core.db in
      record {
        select = elim err [ some x ↦ h.select | none ↦ set_all_local_data h.select rows ];
        nodes = elim err [ some x ↦ h.nodes | none ↦ nodes ];
        terminal_conf = elim err2 [ some x ↦ h.terminal_conf | none ↦ conf ];
      }

  -- The login of a row, if the step chose one.
  unfoldable pub log_in : Shared e → Visit e.Db → Select × Action → Shared e × Logins
  log_in w v r = elim r.1 [
    | display ↦ (w, [])
    | proxy row ↦
        let (w', ended) =
          select_proxy e connect describe during cfg cache r.0.current_type w user row v in
        (w', record { row = row; at = w; visit = v; ended = ended } ∷ [])
  ]

  unfoldable pub serve_all :
      Shared e → Select → Visit e.Db → List Request → Shared e × Select × Logins
  unfolding log_in
  serve_all w u v [] = (w, u, [])
  serve_all w u v (r ∷ rs) =
      let moved = step sort_rows u r in
      let (w', here) = log_in w v moved in
      let (w'', u'', later) = serve_all w' moved.0 v rs in (w'', u'', here ++ later)

  -- The loop of Dispatch. The tree of the nodes sorts the nodes of the handler in place.
  unfoldable pub lines_of :
      Shared e → Interactive → (initialed : Bool) → List Line → Shared e × Journal
  lines_of w h initialed [] = (w, [])
  lines_of w h initialed (l ∷ ls) =
      let now = l.meanwhile w in
      let size = get_page_size h.terminal_conf.asset_list_page_size l.height in
      elim (interpret h.nodes initialed size l.text) [
        | quit ↦ (now, [])
        | show_nodes ↦ lines_of now (record h { nodes = sort_nodes h.nodes }) true ls
        | show_help ↦ lines_of now h false ls
        | refresh ↦
            let (w', later) = lines_of now (refresh_data now h) true ls in (w', loaded now ∷ later)
        | ask rs ↦
            let (w', u', here) = serve_all now h.select l.visit rs in
            let (w'', later) = lines_of w' (record h { select = u' }) true ls in
            (w'', map logged_in here ++ later)
      ]

  -- Dispatch on a new handler: with a single asset a login to it and nothing else.
  unfoldable pub interactive :
      Shared e → TerminalConfig → (height : ℕ) → Visit e.Db → List Line → Shared e × Journal
  unfolding initial
  interactive w conf height v lines =
      let h = initial w conf in
      let size = get_page_size conf.asset_list_page_size height in
      let (w', u', one) = serve_all w h.select v (pick size [] ∷ []) in
      let (w'', rest) = lines_of w h false lines in
      if has_just_one_asset h.select
      then (w', loaded w ∷ map logged_in one)
      else (w'', loaded w ∷ rest)
