-- ===== src/Proxy/Connect/Laws.antt =====
-- What getSSHConn of pkg/proxy/server.go leaves behind, and what the next login of the same user
-- finds.
use gojump.Prelude.{
  ℕ, Str, List, [], ◌∷◌, Option, ◌⊎◌, inl, inr, Sum-cases, ◌≡◌, refl, sym, subst, arith,
}
use gojump.Prelude.Int.{ℤ, pos}
use gojump.Store.{Error}
use gojump.Srvconn.Clients.{store, turn}
use gojump.Srvconn.Clients.Stored.{IsCached, store-IsCached}
use gojump.Srvconn.Ssh.{
  AuthMethod, SshClient, SshClientOption, new_ssh_client, acquire_begin, acquire_end, release_begin,
  release_end,
}
use gojump.Proxy.Server.{Server}
use gojump.Proxy.Connect.{
  Windows, SshOptions, Replies, SshConnection, Connects, new_ssh_connection, set_client, ref_counts,
  open_on, reuse_key, dial_client, get_ssh_conn, ssh_term, ssh_pty_win,
}

-- Nothing is open on the client, or under way.
pub record IsIdle (c : SshClient) : Type 0 where
  pub none_open : c.sessions ≡ []
  pub none_counted : c.ref_count ≡ pos 0

-- The session is the only one of the client.
pub record Serves (c : SshClient) (sess : ℕ) : Type 0 where
  pub one_open : c.sessions ≡ sess ∷ []
  pub one_counted : c.ref_count ≡ pos 1

-- How a call of getSSHConn may leave its client, which it stores under the key.
pub data IsSettled (cs cs' : Connects) (key : Str) (n : ℕ) : Error ⊎ SshConnection → Type 0 where
  refused : {err : Error} → cs' ≡ cs → IsSettled cs cs' key n (inl err)
  left_idle :
      {err : Error}
      → IsCached key n cs'.manager
      → IsIdle (cs'.clients n)
      → IsSettled cs cs' key n (inl err)
  serving :
      {conn : SshConnection}
      → IsCached key n cs'.manager
      → Serves (cs'.clients n) conn.session
      → IsSettled cs cs' key n (inr conn)

module _ (parse_key : Str → Option ℕ) (parse_encrypted : Str → Str → Option ℕ)
    (dial : Str → Str → List AuthMethod → Option Error) where
  new_ssh_client-IsIdle :
      (opts : List SshClientOption) (c : SshClient)
      → new_ssh_client parse_key parse_encrypted dial opts ≡ inr c
      → IsIdle c
  unfolding new_ssh_client
  new_ssh_client-IsIdle opts c h = record {
    none_open = ground (arith, h);
    none_counted = ground (arith, h);
  }

new_ssh_connection-session :
    (sess : ℕ) (r : Replies) (opts : List (SshOptions → SshOptions)) (conn : SshConnection)
    → new_ssh_connection sess r opts ≡ inr conn
    → conn.session ≡ sess
unfolding new_ssh_connection
new_ssh_connection-session sess r opts conn h = ground (arith, h)

-- On an idle client a connection that is made is its only session, and one that is not leaves it
-- idle.
open_on-inr :
    (cs : Connects) (n : ℕ) (new_session : Error ⊎ ℕ) (r : Replies)
    (opts : List (SshOptions → SshOptions)) (conn : SshConnection)
    → IsIdle (cs.clients n)
    → (open_on cs n new_session r opts).1 ≡ inr conn
    → Serves ((open_on cs n new_session r opts).0.clients n) conn.session
unfolding open_on acquire_begin acquire_end set_client
open_on-inr cs n (inl err) r opts conn idle h = cc
open_on-inr cs n (inr sess) r opts conn idle h = record {
  one_open = ground (arith, h, idle.none_open, new_ssh_connection-session sess r opts conn);
  one_counted = ground (arith, h, idle.none_counted);
}

open_on-inl :
    (cs : Connects) (n : ℕ) (new_session : Error ⊎ ℕ) (r : Replies)
    (opts : List (SshOptions → SshOptions)) (err : Error)
    → IsIdle (cs.clients n)
    → (open_on cs n new_session r opts).1 ≡ inl err
    → IsIdle ((open_on cs n new_session r opts).0.clients n)
unfolding open_on acquire_begin acquire_end release_begin release_end set_client
open_on-inl cs n new_session r opts err idle h = record {
  none_open = ground (arith, h, idle.none_open);
  none_counted = ground (arith, h, idle.none_counted);
}

open_on-manager :
    (cs : Connects) (n : ℕ) (new_session : Error ⊎ ℕ) (r : Replies)
    (opts : List (SshOptions → SshOptions))
    → (open_on cs n new_session r opts).0.manager ≡ cs.manager
unfolding open_on set_client
open_on-manager cs n new_session r opts = ground arith

module _ (parse_key : Str → Option ℕ) (parse_encrypted : Str → Str → Option ℕ)
    (dial : Str → Str → List AuthMethod → Option Error) (timeout : ℤ) where
  abbrev dialled : Server → List Str → Error ⊎ SshClient
  dialled = dial_client parse_key parse_encrypted dial timeout

  abbrev first :
      Connects
      → (now n : ℕ) → Server
      → List Str
      → Error ⊎ ℕ
      → Replies
      → Str
      → Windows
      → Connects × (Error ⊎ SshConnection)
  first = get_ssh_conn parse_key parse_encrypted dial timeout

  -- The state in which getSSHConn asks its client for a session.
  abbrev ready : Connects → (now n : ℕ) → Server → SshClient → Connects
  ready cs now n s client =
      let cs1 = set_client n client cs in
      record cs1 { manager = (turn (ref_counts cs1) cs1.manager now (store (reuse_key s) n)).0 }

  dialled-IsIdle :
      (s : Server) (lines : List Str) (c : SshClient) → dialled s lines ≡ inr c → IsIdle c
  unfolding dial_client
  dialled-IsIdle s lines c h = new_ssh_client-IsIdle parse_key parse_encrypted dial _ c h

  get_ssh_conn-open_on :
      (cs : Connects) (now n : ℕ) (s : Server) (lines : List Str) (new_session : Error ⊎ ℕ)
      (r : Replies) (term : Str) (win : Windows) (client : SshClient)
      → dialled s lines ≡ inr client
      → first cs now n s lines new_session r term win
        ≡ open_on (ready cs now n s client) n new_session r (ssh_term term ∷ ssh_pty_win win ∷ [])
  unfolding get_ssh_conn
  get_ssh_conn-open_on cs now n s lines new_session r term win client h = ground (arith, h)

  ready-IsIdle :
      (cs : Connects) (now n : ℕ) (s : Server) (lines : List Str) (client : SshClient)
      → dialled s lines ≡ inr client
      → IsIdle ((ready cs now n s client).clients n)
  unfolding set_client
  ready-IsIdle cs now n s lines client h =
      let idle = dialled-IsIdle s lines client h in
      record {
        none_open = ground (arith, idle.none_open);
        none_counted = ground (arith, idle.none_counted);
      }

  settled :
      (cs cs' : Connects) (n : ℕ) (new_session : Error ⊎ ℕ) (r : Replies)
      (opts : List (SshOptions → SshOptions)) (key : Str) (res : Error ⊎ SshConnection)
      → IsIdle (cs'.clients n)
      → IsCached key n cs'.manager
      → (open_on cs' n new_session r opts).1 ≡ res
      → IsSettled cs (open_on cs' n new_session r opts).0 key n res
  settled cs cs' n new_session r opts key res i k h =
      by_result res (subst (IsCached key n) (sym (open_on-manager cs' n new_session r opts)) k) h
    where
      by_result :
          (res : Error ⊎ SshConnection)
          → IsCached key n (open_on cs' n new_session r opts).0.manager
          → (open_on cs' n new_session r opts).1 ≡ res
          → IsSettled cs (open_on cs' n new_session r opts).0 key n res
      by_result (inl err) k h = left_idle k (open_on-inl cs' n new_session r opts err i h)
      by_result (inr conn) k h = serving k (open_on-inr cs' n new_session r opts conn i h)

  ready-IsCached :
      (cs : Connects) (now n : ℕ) (s : Server) (client : SshClient)
      → IsCached (reuse_key s) n (ready cs now n s client).manager
  ready-IsCached cs now n s client =
      let cs1 = set_client n client cs in
      store-IsCached (ref_counts cs1) cs1.manager now (reuse_key s) n

  first-refused :
      (cs : Connects) (now n : ℕ) (s : Server) (lines : List Str) (new_session : Error ⊎ ℕ)
      (r : Replies) (term : Str) (win : Windows) (err : Error)
      → dialled s lines ≡ inl err
      → first cs now n s lines new_session r term win ≡ (cs, inl err)
  unfolding get_ssh_conn
  first-refused cs now n s lines new_session r term win err h = ground (arith, h)

  -- A call of getSSHConn that fails changes nothing, or leaves its client in the cache, under the key
  -- of the login, with no session and a count of 0. One that succeeds leaves it there with this one
  -- session and a count of 1.
  pub get_ssh_conn-IsSettled :
      (cs : Connects) (now n : ℕ) (s : Server) (lines : List Str) (new_session : Error ⊎ ℕ)
      (r : Replies) (term : Str) (win : Windows)
      → let (cs', res) =
          get_ssh_conn parse_key parse_encrypted dial timeout cs now n s lines new_session r term
            win in
        IsSettled cs cs' (reuse_key s) n res
  get_ssh_conn-IsSettled cs now n s lines new_session r term win =
      elim (Sum-cases (dialled s lines)) [
        | inl (err, h) ↦
            subst (λ p. IsSettled cs p.0 (reuse_key s) n p.1)
              (sym (first-refused cs now n s lines new_session r term win err h)) (refused refl)
        | inr (client, h) ↦
            subst (λ p. IsSettled cs p.0 (reuse_key s) n p.1)
              (sym (get_ssh_conn-open_on cs now n s lines new_session r term win client h))
              (settled cs (ready cs now n s client) n new_session r
                (ssh_term term ∷ ssh_pty_win win ∷ []) (reuse_key s) _
                (ready-IsIdle cs now n s lines client h) (ready-IsCached cs now n s client) refl)
      ]
