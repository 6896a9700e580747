-- ===== src/Server.antt =====
-- internal/online/server: config.go, and the admission and release of TCP connections in server.go.
-- A connection is a number. A negative number in a configuration, which is refused as one below 1,
-- is not represented; a duration is a number of nanoseconds.
pub mod Admission
use codboz_nx_online.Base.{
  ℕ, ◌+◌, ◌-◌, ◌*◌, Bool, true, false, not, ◌&&◌, ◌||◌, List, [], ◌∷◌, ltb, leb, ◌==◌,
  if◌then◌else◌, Option, none, some, Result, ok, err, bind, ℕ_discrete,
}
use codboz_nx_online.Go.Counter.{count, increment, decrement}
use codboz_nx_online.Go.Discrete.{bytes_discrete}
use codboz_nx_online.Go.Map.{Map, lookup, insert, delete}
use codboz_nx_online.Go.Net.{
  NetAddr, nil_addr, tcp_addr, other_addr, NetText, IpAddr, ip4, ip6, addr_from_slice, unmap,
  is_unspecified, is_multicast,
}

abbrev pub max_tcp_connections_limit : ℕ
max_tcp_connections_limit = 1024

abbrev pub max_tcp_connections_per_source_limit : ℕ
max_tcp_connections_per_source_limit = 256

abbrev pub second : ℕ
second = 1_000_000_000

pub record Config : Type 0 where
  pub max_tcp_connections : ℕ
  pub max_tcp_connections_per_source : ℕ
  pub shutdown_timeout : ℕ

abbrev pub default_config : Config
default_config = record {
  max_tcp_connections = 64;
  max_tcp_connections_per_source = 8;
  shutdown_timeout = 10 * second;
}

pub data ConfigError : Type 0 where
  bad_connections bad_per_source per_source_above_total bad_timeout : ConfigError

abbrev or_default : ℕ → ℕ → ℕ
or_default n default = if n == 0 then default else n

unfoldable pub normalize_config : Config → Result ConfigError Config
normalize_config config =
    let total = or_default config.max_tcp_connections default_config.max_tcp_connections in
    let per_source =
      or_default config.max_tcp_connections_per_source
        default_config.max_tcp_connections_per_source in
    let timeout = or_default config.shutdown_timeout default_config.shutdown_timeout in
    if ltb total 1 || ltb max_tcp_connections_limit total
    then err bad_connections
    else if ltb per_source 1 || ltb max_tcp_connections_per_source_limit per_source
    then err bad_per_source
    else if ltb total per_source
    then err per_source_above_total
    else if ltb timeout second || ltb (60 * second) timeout
    then err bad_timeout
    else ok (record {
      max_tcp_connections = total;
      max_tcp_connections_per_source = per_source;
      shutdown_timeout = timeout;
    })

abbrev checked_identity : NetText → IpAddr → Option (List ℕ)
checked_identity text (ip4 bytes) =
    if is_unspecified (ip4 bytes) || is_multicast (ip4 bytes)
    then none
    else some (text.addr_string (ip4 bytes))
checked_identity text (ip6 bytes zone) =
    if is_unspecified (ip6 bytes zone) || is_multicast (ip6 bytes zone)
    then none
    else some (text.prefix64_string bytes)

abbrev address_identity : NetText → Option IpAddr → Option (List ℕ)
address_identity text none = none
address_identity text (some address) = checked_identity text (unmap address)

abbrev text_identity : NetText → Option (List ℕ) → Option (List ℕ)
text_identity text none = none
text_identity text (some host) = address_identity text (text.parse_addr host)

-- tcpSourceIdentity, with `none` for the answer false.
unfoldable pub tcp_source_identity : NetText → NetAddr → Option (List ℕ)
tcp_source_identity text nil_addr = none
tcp_source_identity text (tcp_addr ip port) = address_identity text (addr_from_slice ip)
tcp_source_identity text (other_addr network name) = text_identity text (text.split_host_port name)

-- What of the Server the admission uses: `used_slots` is the number of tokens in the channel
-- connectionSlots, whose capacity is MaxTCPConnections, and `workers` the wait group's counter.
pub record Server : Type 0 where
  pub config : Config
  pub shutting_down : Bool
  pub connections : Map ℕ (Unit {0})
  pub connections_by_source : Map (List ℕ) ℕ
  pub workers : ℕ
  pub used_slots : ℕ

abbrev pub fresh_server : Config → Server
fresh_server config = record {
  config = config;
  shutting_down = false;
  connections = [];
  connections_by_source = [];
  workers = 0;
  used_slots = 0;
}

-- New, with a handler.
unfoldable pub new_server : Config → Result ConfigError Server
unfolding normalize_config
new_server config = bind (normalize_config config) (λ normalized. ok (fresh_server normalized))

unfoldable pub reserve_source : ℕ → Option (List ℕ) → Server → Option (List ℕ) × Server
reserve_source connection none s = (none, s)
reserve_source connection (some source) s =
    if leb s.config.max_tcp_connections s.used_slots
    then (none, s)
    else if s.shutting_down
        || leb s.config.max_tcp_connections_per_source
            (count bytes_discrete source s.connections_by_source)
    then (none, s)
    else (
      some source,
      record s {
        connections = insert ℕ_discrete connection tt s.connections;
        connections_by_source = increment bytes_discrete source s.connections_by_source;
        workers = s.workers + 1;
        used_slots = s.used_slots + 1;
      },
    )

unfoldable pub reserve_tcp_connection : NetText → ℕ → NetAddr → Server → Option (List ℕ) × Server
unfolding reserve_source
reserve_tcp_connection text connection peer s =
    reserve_source connection (tcp_source_identity text peer) s

unfoldable pub release_tcp_connection : ℕ → List ℕ → Server → Server
release_tcp_connection connection source s = record s {
  connections = delete ℕ_discrete connection s.connections;
  connections_by_source = decrement bytes_discrete source s.connections_by_source;
  used_slots = s.used_slots - 1;
}

-- The end of handleTCP: the deferred calls, in their order.
unfoldable pub end_handler : ℕ → List ℕ → Server → Server
unfolding release_tcp_connection
end_handler connection source s =
    let released = release_tcp_connection connection source s in
    record released { workers = released.workers - 1 }
