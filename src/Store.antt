-- ===== src/Store.antt =====
-- pkg/core/genji.go and the interface of pkg/core/db.go: the program's layer over the document
-- database. The database itself (genjidb) is the record `Engine`, a parameter: `query` and `exec`
-- run a statement with its arguments, and the `scan` functions read a document into a Go variable.
-- A query that starts hands out its documents in order, and may still end in an error.
pub mod Laws
use gojump.Prelude.{ℕ, Bool, List, [], ◌∷◌, ◌++◌, Option, none, some, ◌≡◌, Str, String}
use gojump.Prelude.Int.{ℤ}
use gojump.Model.{
  Asset, AssetUserInfo, Node, User, UserSecret, SystemUser, LoginTicket, UserLog, TerminalConfig,
}

pub data Error : Type 0 where
  external : ℕ → Error
  unsupported_protocol inconsistent_protocol terminal_config : Error
  no_such_user asset_not_found system_user_not_found : Str → Error

-- The arguments that the program passes with its statements.
pub data Arg : Type 0 where
  text : Str → Arg
  texts : List Str → Arg
  ticket : LoginTicket → Arg
  log : UserLog → Arg

-- The outcome of a query: it is refused, or its documents come, then an end or an error.
pub data Rows (Doc : Type 0) : Type 0 where
  refused : Error → Rows Doc
  rows : List Doc → Option Error → Rows Doc

pub record Engine : Type 1 where
  pub Db : Type 0
  pub Doc : Type 0
  pub query : Db → String → List Arg → Rows Doc
  pub exec : Db → String → List Arg → Db × Option Error
  pub scan_asset : Doc → Asset → Asset × Option Error
  pub scan_node : Doc → Node → Node × Option Error
  pub scan_user : Doc → User → User × Option Error
  pub scan_secret : Doc → UserSecret → UserSecret × Option Error
  pub scan_system_user : Doc → SystemUser → SystemUser × Option Error
  pub scan_ticket : Doc → LoginTicket → LoginTicket × Option Error
  pub scan_log : Doc → UserLog → UserLog × Option Error
  pub scan_asset_user_info : Doc → AssetUserInfo → AssetUserInfo × Option Error
  pub scan_conf : Doc → TerminalConfig → TerminalConfig × Option Error
  pub scan_bool : Doc → Bool → Bool × Option Error
  pub scan_int : Doc → ℤ → ℤ × Option Error
  pub scan_text : Doc → Str → Str × Option Error
  pub scan_texts : Doc → List Str → List Str × Option Error
  pub scan_two : Doc → Str × Str → (Str × Str) × Option Error

module _ {Doc M : Type 0} (scan : Doc → M → M × Option Error) where
  -- `res.Iterate` with a callback that scans every document into the same variable.
  abbrev pub scan_all : List Doc → Option Error → M → M × Option Error
  scan_all [] end m = (m, end)
  scan_all (d ∷ ds) end m =
      let (m', err) = scan d m in elim err [ none ↦ scan_all ds end m' | some e ↦ (m', some e) ]

  -- The callback that scans each document into a fresh variable and appends it.
  abbrev pub collect : M → List Doc → Option Error → List M → List M × Option Error
  collect zero_value [] end models = (models, end)
  collect zero_value (d ∷ ds) end models =
      let (m, err) = scan d zero_value in
      elim err [ none ↦ collect zero_value ds end (models ++ (m ∷ [])) | some e ↦ (models, some e) ]

module _ (e : Engine) where
  -- QueryStruct, QueryOneField and QueryTwoField: the variable is left as it was if the query is
  -- refused or finds nothing, and holds the last document otherwise.
  unfoldable pub query_into :
      {M : Type 0}
      → (e.Doc → M → M × Option Error)
      → M
      → e.Db
      → String
      → List Arg
      → M × Option Error
  query_into scan m db sql args = elim (e.query db sql args) [
    | refused x ↦ (m, some x)
    | rows ds end ↦ scan_all scan ds end m
  ]

  -- queryStructs: the models read before an error come with the error.
  unfoldable pub query_structs :
      {M : Type 0}
      → (e.Doc → M → M × Option Error)
      → M
      → e.Db
      → String
      → List Arg
      → List M × Option Error
  query_structs scan zero_value db sql args = elim (e.query db sql args) [
    | refused x ↦ ([], some x)
    | rows ds end ↦ collect scan zero_value ds end []
  ]

  -- QueryOneFieldMutilRows: on an error nothing is returned.
  unfoldable pub query_texts : e.Db → String → List Arg → List Str × Option Error
  query_texts db sql args = elim (e.query db sql args) [
    | refused x ↦ ([], some x)
    | rows ds end ↦
        let (s, err) = collect e.scan_text [] ds end [] in
        elim err [ none ↦ (s, none) | some x ↦ ([], some x) ]
  ]
