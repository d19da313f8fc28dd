-- ===== src/Srvconn/Clients.antt =====
-- UserSSHClient and the loop of SSHManager.run in pkg/srvconn/ssh.go, and the key of conn.go. A
-- client is named by a number, as a pointer is; `refs` holds each one's count of sessions, which
-- connections change meanwhile. A Go map is iterated in any order: the theorems hold for every list
-- that holds the clients. Times are nanoseconds.
pub mod Laws
pub mod Stored
use gojump.Prelude.{
  ℕ, Str, List, [], ◌∷◌, ◌++◌, Bool, true, false, not, Option, none, some, if◌then◌else◌, ◌==◌, any,
  keep, codes, starts_with, ltb, ◌+◌,
}
use gojump.Prelude.Dict.{Dict, lookup, insert}
use gojump.Prelude.Int.{ℤ, pos, ltb_ℤ}

unfoldable pub make_reuse_ssh_client_key : (user_id asset_id system_user_id ip username : Str) → Str
make_reuse_ssh_client_key user_id asset_id system_user_id ip username =
    user_id
    ++ (codes "_"
        ++ (asset_id
            ++ (codes "_" ++ (system_user_id ++ (codes "_" ++ (ip ++ (codes "_" ++ username)))))))

-- `u.data[client] = …`
pub add_client : ℕ → List ℕ → List ℕ
add_client client entries = if any (λ c. c == client) entries then entries else client ∷ entries

module _ (refs : ℕ → ℤ) where
  unfoldable pub select_client : List ℕ → ℤ → Option ℕ → Option ℕ
  select_client [] ref_count selected = selected
  select_client (c ∷ cs) ref_count selected =
      if ltb_ℤ (refs c) ref_count
      then select_client cs ref_count selected
      else select_client cs (refs c) (some c)

  unfoldable pub get_client : List ℕ → Option ℕ
  unfolding select_client
  get_client entries = select_client entries (pos 0) none

  unfoldable pub recycle_clients : List ℕ → List ℕ
  recycle_clients entries = keep (λ c. ltb_ℤ (pos 0) (refs c)) entries

  -- Recycle every entry, and drop those that are left empty.
  pub recycle_all : Dict (List ℕ) → Dict (List ℕ)
  unfolding recycle_clients
  recycle_all [] = []
  recycle_all ((key, clients) ∷ entries) =
      let rest = recycle_all entries in
      elim (recycle_clients clients) [ [] ↦ rest | (c ∷ cs) ↦ (key, c ∷ cs) ∷ rest ]

pub record Manager : Type 0 where
  pub entries : Dict (List ℕ)
  pub latest_visited : ℕ

pub data Request : Type 0 where
  tick : Request
  get search : Str → Request
  store : Str → ℕ → Request

-- The clients of the first key that starts with the prefix.
first_match : Str → Dict (List ℕ) → Option (List ℕ)
first_match prefix [] = none
first_match prefix ((key, clients) ∷ entries) =
    let rest = first_match prefix entries in if starts_with prefix key then some clients else rest

pub clients_of : Option (List ℕ) → List ℕ
clients_of none = []
clients_of (some cs) = cs

-- One turn of the loop at time `now`: the new state, and the client that is sent back.
module _ (refs : ℕ → ℤ) where
  pub found : Option (List ℕ) → Option ℕ
  unfolding get_client
  found none = none
  found (some clients) = get_client refs clients

  unfoldable pub turn : Manager → ℕ → Request → Manager × Option ℕ
  unfolding add_client recycle_all found first_match clients_of
  turn m now tick = (
    if ltb (m.latest_visited + 60000000000) now
        then record m { entries = recycle_all refs m.entries }
        else m,
    none,
  )
  turn m now (get key) = (record m { latest_visited = now }, found (lookup key m.entries))
  turn m now (search prefix) =
      (record m { latest_visited = now }, found (first_match prefix m.entries))
  turn m now (store key client) = (
    record {
      entries = insert key (add_client client (clients_of (lookup key m.entries))) m.entries;
      latest_visited = now;
    },
    none,
  )
