-- ===== src/Examples/Memory.antt =====
-- A small database in memory that answers the program's statements, and the rows of the examples.
use gojump.Prelude.{
  ℕ, suc, Str, List, [], ◌∷◌, ◌++◌, map, Bool, true, false, Option, none, some, if◌then◌else◌,
  codes, str_eq, keep, refl, String,
}
use gojump.Prelude.Int.{ℤ, pos}
use gojump.Model.{Asset, Node, User, UserSecret, SystemUser, LoginTicket, TerminalConfig}
use gojump.Store.{Engine, Error, external, Arg, text, ticket, Rows, refused, rows}
use gojump.Core.{Core, Config, new_core}
use gojump.Core.Tickets.Sql.{updated, TicketSql}

pub record Tables : Type 0 where
  pub users : List User
  pub secrets : List UserSecret
  pub tickets : List LoginTicket
  pub assets : List Asset
  pub nodes : List Node
  pub system_users : List SystemUser
  pub confs : List TerminalConfig
  pub need_confirm : Bool
  pub enable_vscode : Bool
  -- `none` when the query for the expiry fails.
  pub expire_at : Option ℤ

pub data Doc : Type 0 where
  user_doc : User → Doc
  secret_doc : UserSecret → Doc
  ticket_doc : LoginTicket → Doc
  asset_doc : Asset → Doc
  node_doc : Node → Doc
  system_user_doc : SystemUser → Doc
  conf_doc : TerminalConfig → Doc
  bool_doc : Bool → Doc
  int_doc : ℤ → Doc
  ids_doc : List Str → Doc

abbrev pub arg_text : List Arg → Str
arg_text (text s ∷ rest) = s
arg_text _ = []

-- The first answer whose statement is the one asked.
abbrev pub answer : Str → List (String × Rows Doc) → Rows Doc
answer sql [] = refused (external 1)
answer sql ((s, r) ∷ rest) =
    let later = answer sql rest in if str_eq (codes s) sql then r else later

abbrev pub int_rows : Option ℤ → Rows Doc
int_rows none = refused (external 2)
int_rows (some n) = rows (int_doc n ∷ []) none

abbrev pub run_query : Tables → String → List Arg → Rows Doc
run_query db sql args = answer (codes sql) (
    (
      "SELECT approver, state FROM LOGINTICKET where ticketid = ?",
      rows (map ticket_doc (keep (λ t. str_eq t.ticket_id (arg_text args)) db.tickets)) none,
    )
    ∷ (
      "SELECT * FROM USER WHERE username = ?",
      rows (map user_doc (keep (λ u. str_eq u.username (arg_text args)) db.users)) none,
    )
    ∷ (
      "SELECT * FROM USERSECRET WHERE userid = ?",
      rows (map secret_doc (keep (λ u. str_eq u.user_id (arg_text args)) db.secrets)) none,
    )
    ∷ (
      "SELECT * from ASSET WHERE id = ?",
      rows (map asset_doc (keep (λ a. str_eq a.id (arg_text args)) db.assets)) none,
    )
    ∷ ("SELECT * from ASSET WHERE id IN ?", rows (map asset_doc db.assets) none)
    ∷ ("SELECT * from NODE WHERE id IN ?", rows (map node_doc db.nodes) none)
    ∷ (
      "SELECT enablevscode FROM ASSETUSERINFO where userid = ? and assetid = ?",
      rows (bool_doc db.enable_vscode ∷ []) none,
    )
    ∷ (
      "SELECT * from ASSET WHERE name = ?",
      rows (map asset_doc (keep (λ a. str_eq a.name (arg_text args)) db.assets)) none,
    )
    ∷ ("Select * from SYSTEMUSER WHERE id IN ?", rows (map system_user_doc db.system_users) none)
    ∷ (
      "SELECT sysuserid FROM ASSETUSERINFO where userid = ? and assetid = ?",
      rows (ids_doc (map (λ s. s.id) db.system_users) ∷ []) none,
    )
    ∷ ("SELECT * FROM USERSECRET", rows (map secret_doc db.secrets) none)
    ∷ ("SELECT * FROM SYSTEMUSER", rows (map system_user_doc db.system_users) none)
    ∷ ("SELECT * FROM LOGINTICKET", rows (map ticket_doc db.tickets) none)
    ∷ ("SELECT * FROM TERMINALCONF", rows (map conf_doc db.confs) none)
    ∷ (
      "SELECT needconfirm FROM ASSETUSERINFO WHERE userid = ? and assetid = ?",
      rows (bool_doc db.need_confirm ∷ []) none,
    )
    ∷ ("SELECT expireat FROM ASSETUSERINFO where userid = ? and assetid = ?", int_rows db.expire_at)
    ∷ ("SELECT username from USER WHERE role = ?", rows [] none)
    ∷ [])

abbrev pub run_exec : Tables → Str → List Arg → Tables × Option Error
run_exec db sql (text state ∷ text user ∷ text date ∷ text id ∷ text old ∷ []) =
    if str_eq sql (
      codes
        "UPDATE LOGINTICKET SET state = ?, approver = ?, approvedate = ? WHERE ticketid = ? AND state = ?")
    then (record db { tickets = map (updated state user date id old) db.tickets }, none)
    else (db, some (external 3))
run_exec db sql (ticket t ∷ []) = (record db { tickets = db.tickets ++ (t ∷ []) }, none)
run_exec db sql _ = (db, none)

abbrev pub read_asset : Doc → Asset → Asset × Option Error
read_asset (asset_doc x) m = (x, none)
read_asset _ m = (m, some (external 4))

abbrev pub read_node : Doc → Node → Node × Option Error
read_node (node_doc x) m = (x, none)
read_node _ m = (m, some (external 4))

abbrev pub read_user : Doc → User → User × Option Error
read_user (user_doc x) m = (x, none)
read_user _ m = (m, some (external 4))

abbrev pub read_secret : Doc → UserSecret → UserSecret × Option Error
read_secret (secret_doc x) m = (x, none)
read_secret _ m = (m, some (external 4))

abbrev pub read_system_user : Doc → SystemUser → SystemUser × Option Error
read_system_user (system_user_doc x) m = (x, none)
read_system_user _ m = (m, some (external 4))

abbrev pub read_ticket : Doc → LoginTicket → LoginTicket × Option Error
read_ticket (ticket_doc x) m = (x, none)
read_ticket _ m = (m, some (external 4))

abbrev pub read_conf : Doc → TerminalConfig → TerminalConfig × Option Error
read_conf (conf_doc x) m = (x, none)
read_conf _ m = (m, some (external 4))

abbrev pub read_bool : Doc → Bool → Bool × Option Error
read_bool (bool_doc x) m = (x, none)
read_bool _ m = (m, some (external 4))

abbrev pub read_int : Doc → ℤ → ℤ × Option Error
read_int (int_doc x) m = (x, none)
read_int _ m = (m, some (external 4))

abbrev pub read_texts : Doc → List Str → List Str × Option Error
read_texts (ids_doc x) m = (x, none)
read_texts _ m = (m, some (external 4))

abbrev pub read_two : Doc → Str × Str → (Str × Str) × Option Error
read_two (ticket_doc t) m = ((t.approver, t.state), none)
read_two _ m = (m, some (external 4))

abbrev pub memory : Engine
memory = record {
  Db = Tables;
  Doc = Doc;
  query = run_query;
  exec = λ db sql args. run_exec db (codes sql) args;
  scan_asset = read_asset;
  scan_node = read_node;
  scan_user = read_user;
  scan_secret = read_secret;
  scan_system_user = read_system_user;
  scan_ticket = read_ticket;
  scan_log = λ d m. (m, some (external 4));
  scan_asset_user_info = λ d m. (m, some (external 4));
  scan_conf = read_conf;
  scan_bool = read_bool;
  scan_int = read_int;
  scan_text = λ d m. (m, some (external 4));
  scan_texts = read_texts;
  scan_two = read_two;
}

unfoldable pub memory_tickets : TicketSql memory
unfolding str_eq
memory_tickets = record {
  tickets = λ db. db.tickets;
  status_doc = ticket_doc;
  scan_status = λ t m. refl;
  select_status = λ db id. refl;
  update = λ db state user date id old. refl;
}

abbrev pub alice : User
alice = record {
  id = codes "u1";
  username = codes "alice";
  role = codes "user";
  expire_at = pos 500;
  otp_level = pos 0;
  is_active = true;
  node_ids = codes "n1" ∷ [];
  addr_white_list = some (codes "10.0.0.9" ∷ []);
}

abbrev pub alice_secret : UserSecret
alice_secret = record {
  user_id = codes "u1";
  password = codes "hash";
  private_key = [];
  authorized_keys = codes "ssh-rsa AAAA alice" ∷ [];
}

abbrev pub web : Asset
web = record {
  id = codes "a1";
  name = codes "web";
  hostname = codes "web";
  ip = codes "10.0.0.1";
  os = codes "Linux";
  comment = [];
  protocols = codes "ssh/22" ∷ [];
  platform = codes "Linux";
  is_active = true;
}

abbrev pub office : Node
office = record {
  id = codes "n1";
  key = codes "1";
  name = codes "office";
  asset_ids = codes "a1" ∷ [];
}

abbrev pub root : SystemUser
root = record {
  id = codes "s1";
  username = codes "root";
  priority = pos 0;
  protocol = codes "ssh";
  comment = [];
  password = codes "pw";
  private_key = [];
}

abbrev pub pending : LoginTicket
pending = record {
  ticket_id = codes "t1";
  state = codes "pending";
  approver = [];
  application_date = [];
  approve_date = [];
  username = codes "alice";
  asset_name = codes "web";
  sys_username = codes "root";
}

abbrev pub conf : TerminalConfig
conf = record {
  asset_list_page_size = codes "auto";
  header_title = [];
  host_key = [];
  max_idle_time = pos 30;
  asset_list_sort_by_ip = false;
  password_auth = true;
  public_key_auth = true;
  enable_session_share = false;
}

abbrev pub tables : Tables
tables = record {
  users = alice ∷ [];
  secrets = alice_secret ∷ [];
  tickets = pending ∷ [];
  assets = web ∷ [];
  nodes = office ∷ [];
  system_users = root ∷ [];
  confs = conf ∷ [];
  need_confirm = false;
  enable_vscode = true;
  expire_at = some (pos 500);
}

abbrev pub config : Config
config = record {
  max_try_login = 3;
  enable_local_port_forward = false;
  reuse_connection = false;
  disable_recorder = false;
}

abbrev pub core : Core Tables
core = new_core tables

-- A password is taken for right when it is the text "pw".
abbrev pub compare_pw : Str → Str → Bool
compare_pw hashed curr = str_eq curr (codes "pw")

abbrev pub count_bytes : Str → ℕ
count_bytes [] = 0
count_bytes (c ∷ s) = suc (count_bytes s)

abbrev pub show_time : ℤ → Str
show_time at = codes "then"
