-- ===== src/Tests/Networks.antt =====
-- Examples on the QUIC transport and the cost of the network.
use pathweave.Base.{list_eqb, false, ◌≡◌, refl, [], ◌∷◌, ◌++◌, none, some, replicate}
use pathweave.Types.{
  Bytes, bytes_eq, ok, err, transport, v4, SocketAddr, quic, free, metered, unknown,
}
use pathweave.Transport.Quic
use pathweave.Transport.Quic.{starts, discovers, local_addresses, discover}
use pathweave.Transport.Quic.Cost.{
  linux_network_cost, split_whitespace, lines, iface_cost, find_iface, default_iface, starts_with,
  is_space, push, words, macos_network_cost, found_in, found, is_active, ieee80211, wwan,
}

-- "Iface Dest", "lo 7F000000", "wwan0 00000000 0" and "eth0 00000000", with tabs.
abbrev routes : Bytes
routes =
    (73 ∷ 102 ∷ 97 ∷ 99 ∷ 101 ∷ 9 ∷ 68 ∷ 101 ∷ 115 ∷ 116 ∷ 10 ∷ [])
    ++ (108 ∷ 111 ∷ 9 ∷ 55 ∷ 70 ∷ 48 ∷ 48 ∷ 48 ∷ 48 ∷ 48 ∷ 48 ∷ 10 ∷ [])
    ++ (119 ∷ 119 ∷ 97 ∷ 110 ∷ 48 ∷ 9 ∷ [])
    ++ replicate 8 48
    ++ (9 ∷ 48 ∷ 10 ∷ 101 ∷ 116 ∷ 104 ∷ 48 ∷ 9 ∷ [])
    ++ replicate 8 48

-- The first default route decides.
routes_metered : linux_network_cost (some routes) ≡ metered
unfolding linux_network_cost lines find_iface split_whitespace words is_space push default_iface
    iface_cost starts_with list_eqb
routes_metered = refl

-- On macOS a free interface counts, also behind a metered one.
interfaces_free :
    macos_network_cost ((1 ∷ []) ∷ (2 ∷ []) ∷ []) (
      record { bsd_name = some (1 ∷ []); interface_type = some wwan }
      ∷ record { bsd_name = some (2 ∷ []); interface_type = some ieee80211 }
      ∷ [])
    ≡ free
unfolding macos_network_cost found_in found is_active list_eqb
interfaces_free = refl

abbrev here : SocketAddr
here = v4 (10 ∷ 0 ∷ 0 ∷ 1 ∷ []) 4433

-- A start that fails at mDNS leaves the endpoint, and the transport tells its address.
failed_start :
    let s =
      Quic.run Quic.new
        (starts (record { binds = ok here; advertises = err transport; detected = free }) ∷ []) in
    (local_addresses s ≡ quic here ∷ []) × (s.mdns ≡ none) × (Quic.cost s ≡ unknown)
unfolding Quic.run Quic.step Quic.new Quic.start Quic.cost local_addresses
failed_start = (refl, refl, refl)

-- The announcements are handed out once.
discovered_once :
    let s =
      Quic.run Quic.new (
        starts (record { binds = ok here; advertises = ok tt; detected = free })
        ∷ discovers
        ∷ []) in
    ((discover s).1 ≡ false) × (Quic.cost s ≡ free)
unfolding Quic.run Quic.step Quic.new Quic.start Quic.cost discover Quic.cost_code
discovered_once = (refl, refl)
