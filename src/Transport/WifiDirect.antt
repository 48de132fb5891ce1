-- ===== src/Transport/WifiDirect.antt =====
-- The two back ends of crates/pathweave-transport-wifi-direct/src: linux.rs over wpa_supplicant and
-- windows.rs over WinRT. What the operating system answers is an argument, and so is `parse`, which
-- reads an IP address with WIFI_DIRECT_PORT behind it.
pub mod Groups
pub mod Shutdown
use pathweave.Base.{
  ℕ, Bool, true, false, not, List, [], ◌∷◌, Option, none, some, ltb, ◌==◌, if◌then◌else◌, length,
  any, ◌=?◌,
}
use pathweave.Types.{
  Bytes, bytes_eq, transport, Result, ok, err, SocketAddr, PeerAddress, PeerAnnouncement,
}
use pathweave.Bytes.{Fault, panic, ret}
use pathweave.Transport.Advertising.{hex_pairs}

-- P2P_SERVICE_NAME with the colon that the short id follows.
abbrev pub service_prefix : Bytes
service_prefix =
    b'p' ∷ b'a' ∷ b't' ∷ b'h' ∷ b'w' ∷ b'e' ∷ b'a' ∷ b'v' ∷ b'e' ∷ b'-' ∷ b'p' ∷ b'2' ∷ b'p' ∷ b':'
    ∷ []

unfoldable pub strip_prefix : Bytes → Bytes → Option Bytes
strip_prefix [] text = some text
strip_prefix (p ∷ ps) [] = none
strip_prefix (p ∷ ps) (c ∷ text) = if p == c then strip_prefix ps text else none

-- `parse_short_id_from_service_name` of linux.rs and `parse_short_id_from_name` of windows.rs.
unfoldable pub parse_short_id : Bytes → Fault (Option Bytes)
parse_short_id name = elim (strip_prefix service_prefix name) [
  | none ↦ ret none
  | some hex ↦ if not (length hex == 16) then ret none else hex_pairs 8 hex
]

-- `and_then` on a name that may be missing.
unfoldable pub short_id_of : Option Bytes → Fault (Option Bytes)
short_id_of none = ret none
short_id_of (some name) = parse_short_id name

-- `rsplit('/').next()`: what follows the last slash.
unfoldable pub last_component : Bytes → Bytes
last_component [] = []
last_component (c ∷ path) =
    let rest = last_component path in
    if any (λ d. d == b'/') path then rest else if c == b'/' then path else c ∷ path

-- A P2PPeerFound signal: its body cannot be read, or it has the path of the peer and its device name.
pub data Signal : Type 0 where
  unreadable : Signal
  peer_found : Bytes → Option Bytes → Signal

abbrev pub peer_announcement : Bytes → Option Bytes → PeerAnnouncement
peer_announcement id short_id = record { address = PeerAddress.wifi_direct id; short_id = short_id }

-- The loop of `discover` (linux.rs) on the signals, each with whether the stream is still read: what
-- the task announces, and whether it panics.
unfoldable pub discover : List (Bool × Signal) → List PeerAnnouncement × Bool
discover [] = ([], false)
discover ((is_open, unreadable) ∷ signals) = discover signals
discover ((is_open, peer_found path name) ∷ signals) =
    let rest = discover signals in
    elim (short_id_of name) [
      | panic ↦ ([], true)
      | ret short_id ↦ elim (last_component path) [
        | [] ↦ rest
        | c ∷ mac ↦
            if is_open then (peer_announcement (c ∷ mac) short_id ∷ rest.0, rest.1) else ([], false)
      ]
    ]

-- The order of `[u8; 8]`.
unfoldable pub greater : Bytes → Bytes → Bool
greater [] ys = false
greater (x ∷ xs) [] = true
greater (x ∷ xs) (y ∷ ys) = let rest = greater xs ys in if x == y then rest else ltb y x

-- Whether this node is to own the group (ADR 022).
unfoldable pub we_are_go : Bytes → Option Bytes → Bool
we_are_go local_short_id none = false
we_are_go local_short_id (some their_id) = greater local_short_id their_id

-- Both short ids are known and equal.
unfoldable pub is_own : Option Bytes → Option Bytes → Bool
is_own (some local) (some peer) = local =? peer
is_own (some local) none = false
is_own none peer = false

-- The `DeviceInformation`s that WinRT enumerates: an id and a name, each of which may fail.
unfoldable pub enumerate_peers :
    Option Bytes → List (Option Bytes × Option Bytes) → Fault (List PeerAnnouncement)
enumerate_peers local_short_id [] = ret []
enumerate_peers local_short_id ((none, name) ∷ devices) = enumerate_peers local_short_id devices
enumerate_peers local_short_id ((some id, name) ∷ devices) =
    let rest = enumerate_peers local_short_id devices in
    elim (short_id_of name) [
      | panic ↦ panic
      | ret short_id ↦ elim rest [
        | panic ↦ panic
        | ret out ↦
            ret
              (if is_own local_short_id short_id then out else peer_announcement id short_id ∷ out)
      ]
    ]

-- A property of a D-Bus signal: a text, or a value of another type.
pub data Value : Type 0 where
  str : Bytes → Value
  other_value : Value

unfoldable pub text_of : Option Value → Option Bytes
text_of (some (str s)) = some s
text_of (some other_value) = none
text_of none = none

-- The keys of P2PGroupStarted that the code reads.
pub data Key : Type 0 where
  role interface_address ip_addr ip_addr_go : Key

abbrev pub Props : Type 0
Props = Key → Option Value

unfoldable pub extract_go_ip : Props → Bool → Result Bytes
extract_go_ip props go = elim (text_of (props (if go then ip_addr else ip_addr_go))) [
  | none ↦ err transport
  | some ip ↦ ok ip
]

-- What the operating system answers to a `connect` of linux.rs: the calls up to `Connect`, the
-- properties of the group or a timeout, and the TCP connection.
pub record Supplicant : Type 0 where
  pub called : ℕ → Result (Unit {0})
  pub group : Result Props
  pub tcp : SocketAddr → Result (Unit {0})

abbrev pub and_then : {A B : Type 0} → Result A → (A → Result B) → Result B
and_then (err e) f = err e
and_then (ok a) f = f a

abbrev pub or_transport : {A : Type 0} → Option A → Result A
or_transport none = err transport
or_transport (some a) = ok a

-- The id in a `PeerAddress::WifiDirect`.
unfoldable pub device_id : PeerAddress → Result Bytes
device_id (PeerAddress.wifi_direct id) = ok id
device_id (PeerAddress.quic addr) = err transport
device_id (PeerAddress.ble id) = err transport
device_id (PeerAddress.ble_advertising id) = err transport

-- `role != "GO"`.
unfoldable pub is_go : Option Bytes → Bool
is_go none = false
is_go (some text) = text =? (b'G' ∷ b'O' ∷ [])

module _ (parse : Bytes → Option SocketAddr) where
  -- `connect` of linux.rs, with the node's short id if the transport was started: the address to
  -- which a TCP connection is open at the end. `Connect` is called with `go_intent`.
  unfoldable pub linux_connect : Option Bytes → PeerAnnouncement → Supplicant → Result SocketAddr
  linux_connect local_short_id peer os = and_then (device_id peer.address) λ id.
      and_then (or_transport local_short_id) λ local_id.
        let go = we_are_go local_id peer.short_id in
        let go_intent : ℕ = if go then 15 else 0 in
        and_then (os.called go_intent) λ called. and_then os.group λ props.
          and_then (extract_go_ip props go) λ peer_ip.
            and_then (or_transport (parse peer_ip)) λ addr. and_then (os.tcp addr) λ stream. ok addr

  -- `connect` of windows.rs: `remote_ip` is what WinRT answers for the device.
  unfoldable pub windows_connect :
      Option Bytes
      → PeerAnnouncement
      → Result Bytes
      → (SocketAddr → Result (Unit {0}))
      → Result SocketAddr
  windows_connect local_short_id peer remote_ip tcp = and_then (device_id peer.address) λ id.
      and_then (or_transport local_short_id) λ local_id.
        if we_are_go local_id peer.short_id
        then err transport
        else and_then remote_ip
            λ ip. and_then (or_transport (parse ip)) λ addr. and_then (tcp addr) λ stream. ok addr

  -- Where `accept_loop` of linux.rs listens for a group that has started, if at all.
  unfoldable pub listen_addr : Props → Option SocketAddr
  listen_addr props =
      if is_go (text_of (props role))
      then elim (text_of (props interface_address)) [ none ↦ none | some addr ↦ parse addr ]
      else none
