-- ===== src/Server/Admission.antt =====
-- server.go: connections come and go. Each admitted connection has one handler, which keeps the
-- source that the admission gave it and gives the place back when it ends.
use codboz_nx_online.Base.{
  ℕ, ◌≤◌, ◌≡◌, refl, sym, subst, true, ◌||◌, List, [], inl, inr, leb, length, Option, none, some,
  ok, ℕ_discrete, arith, Bool-cases, Result-cases,
}
use codboz_nx_online.Go.Counter.{count}
use codboz_nx_online.Go.Discrete.{bytes_discrete}
use codboz_nx_online.Go.Map.{
  Map, lookup, insert, delete, Unique, lookup-insert, lookup-delete, insert-Unique, delete-Unique,
  length-insert_fresh, length-delete_present,
}
use codboz_nx_online.Go.Net.{NetAddr, NetText}
use codboz_nx_online.Go.Tally.{
  Counted, tally, tally-insert_fresh, tally-delete, insert-Counted, delete-Counted,
}
use codboz_nx_online.Server.{
  Config, Server, normalize_config, new_server, fresh_server, reserve_source,
  reserve_tcp_connection, release_tcp_connection, end_handler, tcp_source_identity,
}

-- Every configuration that normalizeConfig accepts is in range: from 1 to 1024 connections, from 1
-- to 256 of one source and no more than in all, and a timeout from a second to a minute;
-- and it is accepted again unchanged.
pub normalize_config_lem :
    (given config : Config)
    → normalize_config given ≡ ok config
    → (1 ≤ config.max_tcp_connections)
      × (config.max_tcp_connections ≤ 1024)
      × (1 ≤ config.max_tcp_connections_per_source)
      × (config.max_tcp_connections_per_source ≤ 256)
      × (config.max_tcp_connections_per_source ≤ config.max_tcp_connections)
      × (1_000_000_000 ≤ config.shutdown_timeout)
      × (config.shutdown_timeout ≤ 60_000_000_000)
      × (normalize_config config ≡ ok config)
unfolding normalize_config
normalize_config_lem given config h = ground arith

-- The server with the connections whose handlers run, each with the source it holds.
pub record System : Type 0 where
  pub server : Server
  pub running : Map ℕ (List ℕ)

abbrev admitted : ℕ → Map ℕ (List ℕ) → Option (List ℕ) × Server → System
admitted connection running (none, s) = record { server = s; running = running }
admitted connection running (some source, s) = record {
  server = s;
  running = insert ℕ_discrete connection source running;
}

-- An accepted connection is a new one; a handler ends once; Shutdown raises the flag.
pub data Step (text : NetText) : System → System → Type 0 where
  accepts :
      (m : System) (connection : ℕ) (peer : NetAddr)
      → lookup ℕ_discrete connection m.running ≡ none
      → Step text m
          (admitted connection m.running (reserve_tcp_connection text connection peer m.server))
  ends :
      (m : System) (connection : ℕ) (source : List ℕ)
      → lookup ℕ_discrete connection m.running ≡ some source
      → Step text m (record {
        server = end_handler connection source m.server;
        running = delete ℕ_discrete connection m.running;
      })
  shuts_down :
      (m : System) → Step text m (record m { server = record m.server { shutting_down = true } })

pub data Reachable (text : NetText) (config : Config) : System → Type 0 where
  starts :
      (s : Server)
      → new_server config ≡ ok s
      → Reachable text config (record { server = s; running = [] })
  goes_on : (m m' : System) → Reachable text config m → Step text m m' → Reachable text config m'

-- The source that a running handler holds.
abbrev pub source_of : List ℕ → List ℕ
source_of source = source

abbrev pub held : Option (List ℕ) → Option (Unit {0})
held none = none
held (some source) = some tt

pub record Inv (m : System) : Type 0 where
  pub unique : Unique ℕ_discrete m.running
  pub counted : Counted bytes_discrete source_of m.running m.server.connections_by_source
  pub slots : m.server.used_slots ≡ length m.running
  pub worked : m.server.workers ≡ length m.running
  pub bounded : length m.running ≤ m.server.config.max_tcp_connections
  pub source_bounded :
      (source : List ℕ)
      → tally bytes_discrete source_of source m.running
        ≤ m.server.config.max_tcp_connections_per_source
  pub registered :
      (c : ℕ) → lookup ℕ_discrete c m.server.connections ≡ held (lookup ℕ_discrete c m.running)

module _ (m : System) (v : Inv m) where
  admit-Inv :
      (connection : ℕ) (source : Option (List ℕ))
      → lookup ℕ_discrete connection m.running ≡ none
      → Inv (admitted connection m.running (reserve_source connection source m.server))
  unfolding reserve_source
  admit-Inv connection none fresh = v
  admit-Inv connection (some source) fresh =
      let s = m.server in
      let full = leb s.config.max_tcp_connections s.used_slots in
      let closed =
        s.shutting_down
        || leb s.config.max_tcp_connections_per_source
            (count bytes_discrete source s.connections_by_source) in
      elim (Bool-cases full) [
        | inl e ↦ rw e v
        | inr room ↦ elim (Bool-cases closed) [
          | inl e ↦ rw (room, e) v
          | inr open_ ↦
              rw (room, open_)
                (record {
                  unique = insert-Unique ℕ_discrete connection source m.running v.unique;
                  counted =
                      insert-Counted ℕ_discrete bytes_discrete source_of m.running
                        s.connections_by_source v.counted connection source fresh;
                  slots = omega (
                    arith,
                    v.slots,
                    length-insert_fresh ℕ_discrete connection source m.running fresh,
                  );
                  worked = omega (
                    arith,
                    v.worked,
                    length-insert_fresh ℕ_discrete connection source m.running fresh,
                  );
                  bounded = ground (
                    arith,
                    v.slots,
                    length-insert_fresh ℕ_discrete connection source m.running fresh,
                  );
                  source_bounded = λ o. ground (
                    arith,
                    v.counted o,
                    v.source_bounded o,
                    tally-insert_fresh ℕ_discrete bytes_discrete source_of o connection source
                        m.running fresh,
                  );
                  registered = λ c. ground (
                    arith,
                    v.registered c,
                    lookup-insert ℕ_discrete connection c source m.running,
                    lookup-insert ℕ_discrete connection c tt s.connections,
                  );
                })
        ]
      ]

  end-Inv :
      (connection : ℕ) (source : List ℕ)
      → lookup ℕ_discrete connection m.running ≡ some source
      → Inv (record {
        server = end_handler connection source m.server;
        running = delete ℕ_discrete connection m.running;
      })
  unfolding end_handler release_tcp_connection
  end-Inv connection source found =
      let s = m.server in
      let shorter = length-delete_present ℕ_discrete connection source m.running v.unique found in
      record {
        unique = delete-Unique ℕ_discrete connection m.running v.unique;
        counted =
            delete-Counted ℕ_discrete bytes_discrete source_of m.running s.connections_by_source
              v.counted connection source v.unique found;
        slots = omega (arith, v.slots, shorter);
        worked = omega (arith, v.worked, shorter);
        bounded = omega (arith, v.bounded, shorter);
        source_bounded = λ o. omega (
          arith,
          v.source_bounded o,
          tally-delete ℕ_discrete bytes_discrete source_of o connection source m.running v.unique
              found,
        );
        registered = λ c. ground (
          arith,
          v.registered c,
          lookup-delete ℕ_discrete connection c m.running,
          lookup-delete ℕ_discrete connection c s.connections,
        );
      }

fresh-Inv : (config : Config) → Inv (record { server = fresh_server config; running = [] })
unfolding lookup tally count
fresh-Inv config = record {
  unique = tt;
  counted = λ o. refl;
  slots = refl;
  worked = refl;
  bounded = omega arith;
  source_bounded = λ o. omega arith;
  registered = λ c. refl;
}

started-fresh_server :
    (config : Config) (s : Server) → new_server config ≡ ok s → s ≡ fresh_server s.config
unfolding new_server
started-fresh_server config s made = elim (Result-cases (normalize_config config)) [
  | inl (c, e) ↦ ground arith
  | inr (x, e) ↦ ground arith
]

started-Inv :
    (config : Config) (s : Server)
    → new_server config ≡ ok s
    → Inv (record { server = s; running = [] })
started-Inv config s made =
    subst (λ (q : Server). Inv (record { server = q; running = [] }))
      (sym (started-fresh_server config s made)) (fresh-Inv s.config)

Step-Inv : (text : NetText) (m m' : System) → Step text m m' → Inv m → Inv m'
unfolding reserve_tcp_connection
Step-Inv text _ _ (accepts m connection peer fresh) v =
    admit-Inv m v connection (tcp_source_identity text peer) fresh
Step-Inv text _ _ (ends m connection source found) v = end-Inv m v connection source found
Step-Inv text _ _ (shuts_down m) v = record {
  unique = v.unique;
  counted = v.counted;
  slots = v.slots;
  worked = v.worked;
  bounded = v.bounded;
  source_bounded = v.source_bounded;
  registered = v.registered;
}

-- In every state that a server can reach by accepting connections, ending handlers and shutting
-- down, in any order: the slots in use, the wait group and the map of connections count and hold
-- exactly the connections whose handlers run, the number kept for each source is the number of its
-- running handlers, and neither limit of the configuration is exceeded.
pub Reachable-Inv :
    (text : NetText) (config : Config) (m : System) → Reachable text config m → Inv m
Reachable-Inv text config _ (starts s made) = started-Inv config s made
Reachable-Inv text config _ (goes_on before m reached step) =
    Step-Inv text before m step (Reachable-Inv text config before reached)
