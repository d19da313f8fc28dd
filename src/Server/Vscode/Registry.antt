-- ===== src/Server/Vscode/Registry.antt =====
-- The registry of VS Code requests, which a connection's sessions share.
use gojump.Prelude.{Str, none, if◌then◌else◌, str_eq, ◌≡◌, arith}
use gojump.Prelude.Dict.{insert, lookup-insert, lookup-delete}
use gojump.Store.{Engine}
use gojump.Server.Vscode.{VscodeReq, Clients, get_vscode_req, add_vscode_req, delete_vscode_req}

module _ (e : Engine) where
  -- Two sessions of one connection share an entry: the end of the first takes away the request of
  -- the second, which is still served, and only that.
  pub shared_entry_lost :
      (s : Clients e.Db) (first second : VscodeReq) (d1 d2 d3 id : Str)
      → first.req_id ≡ second.req_id
      → get_vscode_req e
          (delete_vscode_req e (add_vscode_req e (add_vscode_req e s first d1) second d2) first d3)
          id
        ≡ (if str_eq second.req_id id then none else get_vscode_req e s id)
  unfolding get_vscode_req add_vscode_req delete_vscode_req
  shared_entry_lost s first second d1 d2 d3 id same = rw same (
      ground (
        arith,
        lookup-delete second.req_id id
            (insert second.req_id second (insert second.req_id first s.vscode_clients)),
        lookup-insert second.req_id id second (insert second.req_id first s.vscode_clients),
        lookup-insert second.req_id id first s.vscode_clients,
      ))
