-- ===== src/Core.antt =====
-- pkg/core/core.go: the state that every connection shares. The maps are guarded by mutexes in the
-- program, so an operation under a lock is one step here. A goroutine that sleeps and then deletes
-- an entry is a pending timer; `fire` lets one end, in any order.
pub mod Otp
pub mod Login
pub mod Timers
pub mod Sessions
pub mod Users
pub mod Tickets
pub mod Assets
pub mod Listings
use gojump.Prelude.{ℕ, zero, suc, Str, List, [], ◌∷◌, Bool, true, false}
use gojump.Prelude.Dict.{Dict}
use gojump.Prelude.Int.{ℤ}
use gojump.Model.{Session}

-- The settings of pkg/config that the core and its clients read.
pub record Config : Type 0 where
  pub max_try_login : ℕ
  pub enable_local_port_forward : Bool
  pub reuse_connection : Bool
  pub disable_recorder : Bool

pub data Timer : Type 0 where
  clear_otp : Str → Timer
  reset_login : Str → Timer

pub record Core (Db : Type 0) : Type 0 where
  pub db : Db
  pub session : Dict Session
  pub otpassword : Dict Str
  pub try_login_count : Dict ℕ
  pub timers : List Timer

module _ {Db : Type 0} where
  -- NewCore, once the database is open.
  abbrev pub new_core : Db → Core Db
  new_core db = record { db = db; session = []; otpassword = []; try_login_count = []; timers = [] }
