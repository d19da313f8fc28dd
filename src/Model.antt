-- ===== src/Model.antt =====
-- The rows and values of pkg/model, as records. Texts are lists of bytes; `int` and `int64` are ℤ.
pub mod Expire
pub mod Protocol
pub mod Order
use gojump.Prelude.{Str, Bool, List, Option}
use gojump.Prelude.Int.{ℤ}

pub record Asset : Type 0 where
  pub id : Str
  pub name : Str
  pub hostname : Str
  pub ip : Str
  pub os : Str
  pub comment : Str
  pub protocols : List Str
  pub platform : Str
  pub is_active : Bool

pub record AssetUserInfo : Type 0 where
  pub id : Str
  pub user_id : Str
  pub asset_id : Str
  pub expire_at : ℤ
  pub sys_user_id : List Str
  pub enable_vscode : Bool
  pub need_confirm : Bool

pub record Node : Type 0 where
  pub id : Str
  pub key : Str
  pub name : Str
  pub asset_ids : List Str

-- `addr_white_list` is `none` for a nil slice.
pub record User : Type 0 where
  pub id : Str
  pub username : Str
  pub role : Str
  pub expire_at : ℤ
  pub otp_level : ℤ
  pub is_active : Bool
  pub node_ids : List Str
  pub addr_white_list : Option (List Str)

pub record UserSecret : Type 0 where
  pub user_id : Str
  pub password : Str
  pub private_key : Str
  pub authorized_keys : List Str

pub record SystemUser : Type 0 where
  pub id : Str
  pub username : Str
  pub priority : ℤ
  pub protocol : Str
  pub comment : Str
  pub password : Str
  pub private_key : Str

pub record UserLog : Type 0 where
  pub datetime : Str
  pub type : Str
  pub user : Str
  pub log : Str

pub record LoginTicket : Type 0 where
  pub ticket_id : Str
  pub state : Str
  pub approver : Str
  pub application_date : Str
  pub approve_date : Str
  pub username : Str
  pub asset_name : Str
  pub sys_username : Str

pub record TicketState : Type 0 where
  pub approver : Str
  pub state : Str

pub record AssetLoginTicketInfo : Type 0 where
  pub ticket_id : Str
  pub need_confirm : Bool
  pub reviewers : List Str

pub record Session : Type 0 where
  pub id : Str
  pub user : Str
  pub asset : Str
  pub system_user : Str
  pub login_from : Str
  pub remote_addr : Str
  pub protocol : Str
  pub date_start : Str
  pub user_id : Str
  pub asset_id : Str
  pub system_user_id : Str

pub record TerminalConfig : Type 0 where
  pub asset_list_page_size : Str
  pub header_title : Str
  pub host_key : Str
  pub max_idle_time : ℤ
  pub asset_list_sort_by_ip : Bool
  pub password_auth : Bool
  pub public_key_auth : Bool
  pub enable_session_share : Bool

pub record UserClient : Type 0 where
  pub username : Str
  pub password : Str
  pub public_key : Str
  pub remote_addr : Str
