-- ===== src/Proxy/Connect/Reuse.antt =====
-- The next login on the client of an earlier one: checkRequiredAuth, getCacheSSHConn and the cache.
use gojump.Prelude.{
  ℕ, Str, List, [], ◌∷◌, true, false, Option, none, some, ◌⊎◌, inl, inr, codes, All, ◌≡◌, ◌≢◌, sym,
  ap, ◌∙◌, subst, arith,
}
use gojump.Prelude.Int.{ℤ, pos, ltb_ℤ}
use gojump.Store.{Error}
use gojump.Core.{Config}
use gojump.Srvconn.Clients.{Manager, Request, get, turn}
use gojump.Srvconn.Clients.Stored.{IsCached, cached_found, turn-IsCached}
use gojump.Srvconn.Ssh.{AuthMethod, SshClient}
use gojump.Proxy.Server.{Server, protocol_ssh, check_required_auth}
use gojump.Proxy.Server.Credentials.{own, shared}
use gojump.Proxy.Server.Credentials.Laws.{auth_iff}
use gojump.Proxy.Connect.{
  Windows, SshOptions, Replies, SshConnection, Connects, new_ssh_connection, ref_counts, open_on,
  reuse_key, cached_connection, get_ssh_conn, ssh_term, ssh_pty_win,
}
use gojump.Proxy.Connect.Laws.{IsSettled, serving, get_ssh_conn-IsSettled}

-- A turn of the cache's loop: the counts of the moment, the time and the request.
pub record Turn : Type 0 where
  pub counts : ℕ → ℤ
  pub at : ℕ
  pub request : Request

abbrev pub run_turns : Manager → List Turn → Manager
run_turns m [] = m
run_turns m (t ∷ ts) = run_turns (turn t.counts m t.at t.request).0 ts

-- The client has a session at the turn.
abbrev pub IsBusy : ℕ → Turn → Type 0
IsBusy n t = ltb_ℤ (pos 0) (t.counts n) ≡ true

run_turns-IsCached :
    (m : Manager) (ts : List Turn) (key : Str) (n : ℕ)
    → IsCached key n m
    → All (IsBusy n) ts
    → IsCached key n (run_turns m ts)
run_turns-IsCached m [] key n i busy = i
run_turns-IsCached m (t ∷ ts) key n i busy =
    run_turns-IsCached (turn t.counts m t.at t.request).0 ts key n
      (turn-IsCached t.counts m t.at t.request key n i busy.0) busy.1

abbrev pub session_of : Option SshConnection → Option ℕ
session_of none = none
session_of (some conn) = some conn.session

settled_opened :
    (cs cs' : Connects) (key : Str) (n : ℕ) (res : Error ⊎ SshConnection) (conn : SshConnection)
    → IsSettled cs cs' key n res
    → res ≡ inr conn
    → IsCached key n cs'.manager
settled_opened cs cs' key n (inl err) conn s h = cc
settled_opened cs cs' key n (inr c) conn (serving k s) h = k

open_on-ok :
    (cs : Connects) (n sess : ℕ) (r : Replies) (opts : List (SshOptions → SshOptions))
    (conn : SshConnection)
    → new_ssh_connection sess r opts ≡ inr conn
    → (open_on cs n (inr sess) r opts).1 ≡ inr conn
unfolding open_on
open_on-ok cs n sess r opts conn h = ground (arith, h)

cached_connection-found :
    (cs : Connects) (later n sess : ℕ) (s : Server) (r : Replies) (term : Str) (win : Windows)
    (conn : SshConnection)
    → (turn (ref_counts cs) cs.manager later (get (reuse_key s))).1 ≡ some n
    → new_ssh_connection sess r (ssh_pty_win win ∷ ssh_term term ∷ []) ≡ inr conn
    → (cached_connection cs later s (inr sess) r term win).1 ≡ some conn
unfolding cached_connection
cached_connection-found cs later n sess s r term win conn h ok =
    let cs1 = record cs {
      manager = (turn (ref_counts cs) cs.manager later (get (reuse_key s))).0;
    } in
    ground (arith, h, open_on-ok cs1 n sess r (ssh_pty_win win ∷ ssh_term term ∷ []) conn ok)

cached_connection-IsCached :
    (cs : Connects) (later n sess : ℕ) (s : Server) (r : Replies) (term : Str) (win : Windows)
    (conn : SshConnection)
    → IsCached (reuse_key s) n cs.manager
    → ltb_ℤ (cs.clients n).ref_count (pos 0) ≡ false
    → new_ssh_connection sess r (ssh_pty_win win ∷ ssh_term term ∷ []) ≡ inr conn
    → (cached_connection cs later s (inr sess) r term win).1 ≡ some conn
unfolding ref_counts
cached_connection-IsCached cs later n sess s r term win conn i le ok =
    let (c, at) = cached_found (ref_counts cs) cs.manager later (reuse_key s) n i le in
    cached_connection-found cs later c sess s r term win conn at ok

-- With the cache's answer a named login to a shared Linux asset is complete.
shared_auth :
    (cfg : Config) (cache : Str → Option ℕ) (s : Server) (lines : List Str) (password : Option Str)
    (conn : ℕ)
    → cfg.reuse_connection ≡ true
    → s.conn_opts.asset.platform ≡ codes "Linux"
    → s.conn_opts.system_user.protocol ≡ protocol_ssh
    → s.conn_opts.system_user.username ≢ []
    → cache (reuse_key s) ≡ some conn
    → check_required_auth cfg cache s lines password
      ≡ some (record s { cache_ssh_connection = some conn })
unfolding reuse_key
shared_auth cfg cache s lines password conn on linux ssh name c =
    (auth_iff cfg cache s (record s { cache_ssh_connection = some conn }) lines password).1
      (record { ssh = ssh; s0 = s; name = own name; proof = shared conn (on, linux) c })

module _ (parse_key : Str → Option ℕ) (parse_encrypted : Str → Str → Option ℕ)
    (dial : Str → Str → List AuthMethod → Option Error) (timeout : ℤ) where
  -- getSSHConn has opened a connection. The cache's loop has then gone through any requests and
  -- clean-ups of other connections, at each of which the client still has a session, and the client's
  -- count is not negative. Then a login with the same key, under a name, to an asset that runs Linux,
  -- with the setting for reuse on, is complete with a connection on a cached client, whatever is
  -- typed, if a session that this client opens can be set up.
  pub get_ssh_conn-reused :
      (cs : Connects) (now n : ℕ) (s : Server) (lines : List Str) (new_session : Error ⊎ ℕ)
      (r : Replies) (term : Str) (win : Windows) (conn : SshConnection) (turns : List Turn)
      (clients : ℕ → SshClient) (later sess : ℕ) (r' : Replies) (term' : Str) (win' : Windows)
      (conn' : SshConnection) (cfg : Config) (cache : Str → Option ℕ) (s' : Server)
      (lines' : List Str) (password : Option Str)
      → (get_ssh_conn parse_key parse_encrypted dial timeout cs now n s lines new_session r term
          win).1
        ≡ inr conn
      → All (IsBusy n) turns
      → ltb_ℤ (clients n).ref_count (pos 0) ≡ false
      → new_ssh_connection sess r' (ssh_pty_win win' ∷ ssh_term term' ∷ []) ≡ inr conn'
      → cfg.reuse_connection ≡ true
      → s'.conn_opts.asset.platform ≡ codes "Linux"
      → s'.conn_opts.system_user.protocol ≡ protocol_ssh
      → s'.conn_opts.system_user.username ≢ []
      → reuse_key s' ≡ reuse_key s
      → let cs' =
          (get_ssh_conn parse_key parse_encrypted dial timeout cs now n s lines new_session r term
            win).0 in
        let cs2 : Connects = record { manager = run_turns cs'.manager turns; clients = clients } in
        cache (reuse_key s')
          ≡ session_of (cached_connection cs2 later s' (inr sess) r' term' win').1
        → check_required_auth cfg cache s' lines' password
          ≡ some (record s' { cache_ssh_connection = some conn'.session })
  get_ssh_conn-reused cs now n s lines new_session r term win conn turns clients later sess r' term'
        win' conn' cfg cache s' lines' password opened busy le ok on linux ssh name same asks =
      let (cs', res) =
        get_ssh_conn parse_key parse_encrypted dial timeout cs now n s lines new_session r term
          win in
      let stored =
        settled_opened cs cs' (reuse_key s) n res conn
          (get_ssh_conn-IsSettled parse_key parse_encrypted dial timeout cs now n s lines
            new_session r term win)
          opened in
      let cs2 : Connects = record { manager = run_turns cs'.manager turns; clients = clients } in
      let here : IsCached (reuse_key s') n cs2.manager =
        subst (λ k. IsCached k n cs2.manager) (sym same)
          (run_turns-IsCached cs'.manager turns (reuse_key s) n stored busy) in
      let served = cached_connection-IsCached cs2 later n sess s' r' term' win' conn' here le ok in
      shared_auth cfg cache s' lines' password conn'.session on linux ssh name
        (asks ∙ ap session_of served)
