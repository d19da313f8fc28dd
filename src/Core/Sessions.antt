-- ===== src/Core/Sessions.antt =====
-- pkg/core/session.go and the inserts of pkg/core/log.go. `date` is the formatted time of the call.
pub mod Laws
use gojump.Prelude.{Str, List, [], ◌∷◌, ◌++◌, Option, none, some, codes}
use gojump.Prelude.Dict.{lookup, insert, delete}
use gojump.Model.{Session, UserLog}
use gojump.Store.{Engine, Error, log}
use gojump.Core.{Core}

module _ (e : Engine) where
  insert_user_log : Core e.Db → UserLog → Core e.Db × Option Error
  insert_user_log c l =
      let (db', err) = e.exec c.db "INSERT INTO USERLOG VALUES ?" (log l ∷ []) in
      (record c { db = db' }, err)

  unfoldable pub create_session : Core e.Db → Session → Core e.Db
  create_session c s = record c { session = insert s.id s c.session }

  unfoldable pub session_success : Core e.Db → Str → Str → Core e.Db × Option Error
  unfolding insert_user_log
  session_success c id date = elim (lookup id c.session) [
    | none ↦ (c, none)
    | some s ↦ insert_user_log c (record {
      datetime = date;
      type = codes "session";
      user = s.user;
      log = codes "login to " ++ (s.asset ++ codes " successfully");
    })
  ]

  -- The entry goes whether or not the insert succeeds.
  unfoldable pub session_failed : Core e.Db → Str → Str → Str → Core e.Db × Option Error
  unfolding insert_user_log
  session_failed c id cause date = elim (lookup id c.session) [
    | none ↦ (c, none)
    | some s ↦
        let (c', err) = insert_user_log c (record {
          datetime = date;
          type = codes "session";
          user = s.user;
          log = codes "login to " ++ (s.asset ++ (codes " failed, error: " ++ cause));
        }) in
        (record c' { session = delete id c'.session }, err)
  ]

  unfoldable pub session_disconnect : Core e.Db → Str → Str → Core e.Db × Option Error
  unfolding insert_user_log
  session_disconnect c id date = elim (lookup id c.session) [
    | none ↦ (c, none)
    | some s ↦
        let (c', err) = insert_user_log c (record {
          datetime = date;
          type = codes "session";
          user = s.user;
          log = codes "disconnected to " ++ s.asset;
        }) in
        (record c' { session = delete id c'.session }, err)
  ]

  -- An error of the insert is only logged.
  unfoldable pub insert_log : Core e.Db → Str → Str → Str → Str → Core e.Db
  unfolding insert_user_log
  insert_log c type user msg date =
      (insert_user_log c (record { datetime = date; type = type; user = user; log = msg })).0

  unfoldable pub interactive_log : Core e.Db → Str → Str → Core e.Db
  unfolding insert_user_log
  interactive_log c user date =
      (insert_user_log c (record {
        datetime = date;
        type = codes "term";
        user = user;
        log = codes "exit terminal";
      })).0

  unfoldable pub authentication_log : Core e.Db → Str → Str → Str → Str → Core e.Db
  unfolding insert_user_log
  authentication_log c username auth_method remote_addr date =
      (insert_user_log c (record {
        datetime = date;
        type = codes "auth";
        user = username;
        log =
            codes "authenticate successfully from "
            ++ (remote_addr ++ (codes " using " ++ auth_method));
      })).0
