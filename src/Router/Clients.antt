-- ===== src/Router/Clients.antt =====
-- `ExtractClients` and the sums over clients of services/api/internal/router/tplink.go. The Go map
-- from keys to clients is an association list, in the order in which its keys came up; `range`
-- visits it in an order that Go leaves open.
pub mod Keyed
pub mod Merged
pub mod Shuffled
pub mod Sums
mod Tests
use homelink_monitor.Base.{
  Bool, true, false, not, ◌&&◌, ◌||◌, Option, none, some, List, [], ◌∷◌, ◌++◌, map, Text, text_eq,
  bytes, is_empty, is_some, if◌then◌else◌, Floats, any,
}
use homelink_monitor.Domain.{RouterTrafficClient}
use homelink_monitor.Router.Json.{Json, Fields, collect_objects, first_string, first_number}

pub record EndpointResponse (F : Type 0) : Type 0 where
  pub source : Text
  pub payload : Json F

abbrev pub Clients : Type 0 → Type 0
Clients F = List (Text × RouterTrafficClient F)

-- `if a.X == "" { a.X = b.X }`, and the same for nil.
abbrev pub or_text : Text → Text → Text
or_text a b = if is_empty a then b else a

module _ {F : Type 0} where
  abbrev pub empty_client : RouterTrafficClient F
  empty_client = record {
    mac = [];
    ip = [];
    hostname = [];
    connection = [];
    download_bps = none;
    upload_bps = none;
    total_bps = none;
    download_bytes = none;
    upload_bytes = none;
    total_bytes = none;
  }

  abbrev pub or_number : Option F → Option F → Option F
  or_number none b = b
  or_number (some x) b = some x

  unfoldable pub merge_client :
      RouterTrafficClient F → RouterTrafficClient F → RouterTrafficClient F
  merge_client a b = record {
    mac = or_text a.mac b.mac;
    ip = or_text a.ip b.ip;
    hostname = or_text a.hostname b.hostname;
    connection = or_text a.connection b.connection;
    download_bps = or_number a.download_bps b.download_bps;
    upload_bps = or_number a.upload_bps b.upload_bps;
    total_bps = or_number a.total_bps b.total_bps;
    download_bytes = or_number a.download_bytes b.download_bytes;
    upload_bytes = or_number a.upload_bytes b.upload_bytes;
    total_bytes = or_number a.total_bytes b.total_bytes;
  }

  abbrev pub has_identity : RouterTrafficClient F → Bool
  has_identity c = not (is_empty c.mac) || not (is_empty c.ip) || not (is_empty c.hostname)

  abbrev pub has_traffic : RouterTrafficClient F → Bool
  has_traffic c =
      is_some c.download_bps
      || is_some c.upload_bps
      || is_some c.total_bps
      || is_some c.download_bytes
      || is_some c.upload_bytes
      || is_some c.total_bytes

  unfoldable pub client_key : RouterTrafficClient F → Text
  client_key c = or_text c.mac (or_text c.ip c.hostname)

  -- `byKey[key]`, which is the empty client at a missing key.
  unfoldable pub client_at : Text → Clients F → RouterTrafficClient F
  client_at key [] = empty_client
  client_at key ((k, c) ∷ by_key) =
      let rest = client_at key by_key in if text_eq k key then c else rest

  -- `byKey[key] = client`.
  unfoldable pub put_client : Text → RouterTrafficClient F → Clients F → Clients F
  put_client key client [] = (key, client) ∷ []
  put_client key client ((k, c) ∷ by_key) =
      let rest = put_client key client by_key in
      if text_eq k key then (key, client) ∷ by_key else (k, c) ∷ rest

  -- The body of the loop, for an object that is a client.
  unfoldable pub add_client : RouterTrafficClient F → Clients F → Clients F
  add_client client by_key =
      if is_empty (client_key client)
      then by_key
      else put_client (client_key client)
          (merge_client (client_at (client_key client) by_key) client) by_key

  unfoldable pub add_clients : List (RouterTrafficClient F) → Clients F → Clients F
  add_clients [] by_key = by_key
  add_clients (client ∷ clients) by_key = add_clients clients (add_client client by_key)

module _ {F : Type 0} (parse_float : Text → Option F) where
  unfoldable pub read_client : Fields F → RouterTrafficClient F
  read_client m = record {
    mac = first_string m (bytes "macaddr" ∷ bytes "mac_addr" ∷ bytes "mac" ∷ bytes "host_mac" ∷ []);
    ip = first_string m (bytes "ipaddr" ∷ bytes "ip_addr" ∷ bytes "ip" ∷ bytes "host_ip" ∷ []);
    hostname = first_string m (
        bytes "hostname"
        ∷ bytes "host_name"
        ∷ bytes "name"
        ∷ bytes "client_name"
        ∷ bytes "deviceName"
        ∷ []);
    connection = first_string m (
        bytes "type"
        ∷ bytes "connection"
        ∷ bytes "wire_type"
        ∷ bytes "interface"
        ∷ bytes "deviceTag"
        ∷ bytes "networkMode"
        ∷ []);
    download_bps = first_number parse_float m (
        bytes "down_speed"
        ∷ bytes "download_speed"
        ∷ bytes "down_rate"
        ∷ bytes "download_rate"
        ∷ bytes "rx_speed"
        ∷ bytes "downloadSpeed"
        ∷ bytes "downSpeed"
        ∷ []);
    upload_bps = first_number parse_float m (
        bytes "up_speed"
        ∷ bytes "upload_speed"
        ∷ bytes "up_rate"
        ∷ bytes "upload_rate"
        ∷ bytes "tx_speed"
        ∷ bytes "uploadSpeed"
        ∷ bytes "upSpeed"
        ∷ []);
    total_bps = first_number parse_float m (
        bytes "speed"
        ∷ bytes "rate"
        ∷ bytes "total_speed"
        ∷ bytes "traffic_speed"
        ∷ bytes "trafficSpeed"
        ∷ []);
    download_bytes = first_number parse_float m (
        bytes "download"
        ∷ bytes "down_bytes"
        ∷ bytes "download_bytes"
        ∷ bytes "bytes_received"
        ∷ bytes "downloadBytes"
        ∷ []);
    upload_bytes = first_number parse_float m (
        bytes "upload"
        ∷ bytes "up_bytes"
        ∷ bytes "upload_bytes"
        ∷ bytes "bytes_sent"
        ∷ bytes "uploadBytes"
        ∷ []);
    total_bytes = first_number parse_float m (
        bytes "traffic_usage"
        ∷ bytes "traffic"
        ∷ bytes "total"
        ∷ bytes "total_bytes"
        ∷ bytes "trafficUsage"
        ∷ bytes "trafficUsed"
        ∷ bytes "totalBytes"
        ∷ []);
  }

  -- `none` where the Go function returns false.
  unfoldable pub object_to_client : Fields F → Option (RouterTrafficClient F)
  object_to_client m =
      if has_identity (read_client m) && has_traffic (read_client m)
      then some (read_client m)
      else none

  -- The objects of a response that are clients.
  unfoldable pub clients_of : List (Fields F) → List (RouterTrafficClient F)
  clients_of [] = []
  clients_of (m ∷ objects) = elim (object_to_client m) [
    | none ↦ clients_of objects
    | some c ↦ c ∷ clients_of objects
  ]

  unfoldable pub response_clients : List (EndpointResponse F) → List (RouterTrafficClient F)
  response_clients [] = []
  response_clients (r ∷ responses) =
      clients_of (collect_objects r.payload) ++ response_clients responses

  unfoldable pub extract_clients : List (EndpointResponse F) → List (RouterTrafficClient F)
  extract_clients responses = map (λ entry. entry.1) (add_clients (response_clients responses) [])

module _ {F : Type 0} (fl : Floats F) where
  -- The loop of `sumClients` over what `pick` returns; `count` is whether a value came up.
  unfoldable pub sum_from :
      (RouterTrafficClient F → Option F) → F → Bool → List (RouterTrafficClient F) → Option F
  sum_from pick total count [] = if count then some total else none
  sum_from pick total count (c ∷ clients) = elim (pick c) [
    | none ↦ sum_from pick total count clients
    | some v ↦ sum_from pick (fl.plus total v) true clients
  ]

  unfoldable pub sum_clients :
      (RouterTrafficClient F → Option F) → List (RouterTrafficClient F) → Option F
  sum_clients pick clients = sum_from pick (fl.of_nat 0) false clients

abbrev pub any_client_has :
    {F : Type 0} → List (RouterTrafficClient F) → (RouterTrafficClient F → Bool) → Bool
any_client_has clients pred = any pred clients

abbrev pub source_names : {F : Type 0} → List (EndpointResponse F) → List Text
source_names responses = map (λ r. r.source) responses
