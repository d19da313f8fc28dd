-- ===== src/Core/Sessions/Laws.antt =====
-- The life of a session's entry.
use gojump.Prelude.{Str, none, some, ◌≡◌, ◌≢◌, arith, str_eq, eq_iff, if◌then◌else◌}
use gojump.Prelude.Dict.{lookup, lookup-insert, lookup-delete, str_eq_refl}
use gojump.Model.{Session}
use gojump.Store.{Engine}
use gojump.Core.{Core}
use gojump.Core.Sessions.{create_session, session_success, session_failed, session_disconnect}

module _ (e : Engine) where
  pub lookup-disconnect :
      (c : Core e.Db) (id other date : Str)
      → lookup other (session_disconnect e c id date).0.session
        ≡ (if str_eq id other then none else lookup other c.session)
  unfolding session_disconnect
  lookup-disconnect c id other date =
      ground (arith, lookup-delete id other c.session, eq_iff id other)

  pub lookup-failed :
      (c : Core e.Db) (id other cause date : Str)
      → lookup other (session_failed e c id cause date).0.session
        ≡ (if str_eq id other then none else lookup other c.session)
  unfolding session_failed
  lookup-failed c id other cause date =
      ground (arith, lookup-delete id other c.session, eq_iff id other)

  pub disconnect_absent :
      (c : Core e.Db) (id date : Str)
      → lookup id c.session ≡ none
      → session_disconnect e c id date ≡ (c, none)
  unfolding session_disconnect
  disconnect_absent c id date h = ground arith

  -- A failed login ends its session: the disconnect that the proxy then always reports finds no
  -- entry, so it writes no second row, reports no error and leaves the core as the failure left it.
  pub disconnect-failed :
      (c : Core e.Db) (id cause date later : Str)
      → let failed = (session_failed e c id cause date).0 in
        session_disconnect e failed id later ≡ (failed, none)
  disconnect-failed c id cause date later =
      disconnect_absent (session_failed e c id cause date).0 id later
        (rw (lookup-failed c id id cause date, str_eq_refl id))

  -- From its creation to its end a session is on record, with success or without, and after its end
  -- it is not, whatever the database answers; the other sessions stay as they were throughout.
  pub session_lifecycle :
      (c : Core e.Db) (s : Session) (other date later : Str)
      → s.id ≢ other
      → let c' = create_session e c s in
        let c'' = (session_success e c' s.id date).0 in
        let ended = (session_disconnect e c'' s.id later).0 in
        (lookup s.id c''.session ≡ some s)
        × (lookup s.id ended.session ≡ none)
        × (lookup other ended.session ≡ lookup other c.session)
  unfolding create_session session_success
  session_lifecycle c s other date later h =
      let c'' = (session_success e (create_session e c s) s.id date).0 in
      ground (
        arith,
        lookup-disconnect c'' s.id s.id later,
        lookup-disconnect c'' s.id other later,
        lookup-insert s.id s.id s c.session,
        lookup-insert s.id other s c.session,
        str_eq_refl s.id,
        eq_iff s.id other,
      )
