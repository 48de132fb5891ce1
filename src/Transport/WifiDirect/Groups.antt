-- ===== src/Transport/WifiDirect/Groups.antt =====
-- Which of two nodes owns the Wi-Fi Direct group, whom each dials, and what ends the discovery.
use pathweave.Base.{
  ℕ, ◌≤◌, ◌<◌, Bool, true, false, ◌≡◌, ◌≢◌, ◌⊎◌, refl, ap, ap₂, List, [], ◌∷◌, ◌++◌, Option, some,
  arith, inl, inr, ltb, ◌==◌, Bool-cases, List-cases, length, All, eqb_refl, none, if◌then◌else◌,
}
use pathweave.Types.{Bytes, bytes_eq, transport, Result, ok, err, SocketAddr}
use pathweave.Bytes.{panic, Fault-cases}
use pathweave.Transport.WifiDirect.{
  Signal, unreadable, peer_found, discover, short_id_of, parse_short_id, service_prefix,
  strip_prefix, last_component, peer_announcement, greater, we_are_go, Props, role,
  interface_address, ip_addr, text_of, extract_go_ip, Supplicant, device_id, linux_connect,
  windows_connect, listen_addr, is_go, and_then, or_transport,
}
use pathweave.Transport.Advertising.{hex_pairs, is_char_boundary}

-- Of two different short ids exactly one is the greater.
greater_total :
    (a b : Bytes)
    → length a ≡ length b
    → a ≢ b
    → ((greater a b ≡ true) × (greater b a ≡ false))
      ⊎ ((greater a b ≡ false) × (greater b a ≡ true))
unfolding greater
greater_total [] [] e differ = absurd (differ refl)
greater_total [] (y ∷ b) e differ = absurd (omega (arith, e))
greater_total (x ∷ a) [] e differ = absurd (omega (arith, e))
greater_total (x ∷ a) (y ∷ b) e differ = elim (Bool-cases (x == y)) [
  | inl same ↦
      let here : x ≡ y = ground arith in
      let rest = greater_total a b (omega arith) (λ tail. differ (ap₂ (λ h t. h ∷ t) here tail)) in
      let back : (y == x) ≡ true = ground arith in rw (same, back) rest
  | inr other ↦
      let back : (y == x) ≡ false = ground arith in
      rw (other, back)
        (elim (Bool-cases (ltb y x)) [
          | inl above ↦ inl (above, ground arith)
          | inr below ↦ inr (below, ground arith)
        ])
]

-- Two nodes on Windows that were started and know each other's short id, which differ: one of them
-- dials whatever it is told to be the other's address, and the other fails without a dial, whatever
-- the operating system answers.
pub windows_connect-one_dials :
    (parse : Bytes → Option SocketAddr) (a b id_a id_b : Bytes) (ip_a ip_b : Result Bytes)
    (tcp_a tcp_b : SocketAddr → Result (Unit {0}))
    → length a ≡ length b
    → a ≢ b
    → let from_a = windows_connect parse (some a) (peer_announcement id_b (some b)) ip_b tcp_a in
      let from_b = windows_connect parse (some b) (peer_announcement id_a (some a)) ip_a tcp_b in
      let dials = λ (ip : Result Bytes) (tcp : SocketAddr → Result (Unit {0})). and_then ip λ text.
        and_then (or_transport (parse text)) λ addr. and_then (tcp addr) λ stream. ok addr in
      ((from_a ≡ err transport) × (from_b ≡ dials ip_a tcp_b))
      ⊎ ((from_a ≡ dials ip_b tcp_a) × (from_b ≡ err transport))
unfolding windows_connect we_are_go device_id
windows_connect-one_dials parse a b id_a id_b ip_a ip_b tcp_a tcp_b e differ =
    elim (greater_total a b e differ) [
      | inl (g, h) ↦ inl (rw g refl, rw h refl)
      | inr (g, h) ↦ inr (rw g refl, rw h refl)
    ]

-- A node on Linux that owns the group dials, once the group has started, the address on which its own
-- `accept_loop` listens for the other node, if the IP address of its interface is the one under which
-- the group runs.
pub linux_connect-dials_itself :
    (parse : Bytes → Option SocketAddr) (local their id ip : Bytes) (os : Supplicant)
    (props : Props) (addr : SocketAddr)
    → greater local their ≡ true
    → os.called 15 ≡ ok tt
    → os.group ≡ ok props
    → text_of (props role) ≡ some (b'G' ∷ b'O' ∷ [])
    → text_of (props interface_address) ≡ some ip
    → text_of (props ip_addr) ≡ some ip
    → parse ip ≡ some addr
    → os.tcp addr ≡ ok tt
    → (listen_addr parse props ≡ some addr)
      × (linux_connect parse (some local) (peer_announcement id (some their)) os ≡ ok addr)
unfolding linux_connect listen_addr we_are_go device_id extract_go_ip is_go
linux_connect-dials_itself parse local their id ip os props addr go called group owner here same
      parses tcp =
    (
      rw (owner, here, parses)
          (ap (λ go. if go then some addr else none) (eqb_refl {A = Bytes} (b'G' ∷ b'O' ∷ []))),
      rw (go, called, group, extract_go_ip, same, parses, tcp) refl,
    )

strip_prefix-append : (p text : Bytes) → strip_prefix p (p ++ text) ≡ some text
unfolding strip_prefix
strip_prefix-append [] text = refl
strip_prefix-append (c ∷ p) text = ground (arith, strip_prefix-append p text)

short_id_of-panics :
    (a b c : ℕ) (rest : Bytes)
    → length rest ≡ 13
    → 128 ≤ c
    → c < 192
    → short_id_of (some (service_prefix ++ a ∷ b ∷ c ∷ rest)) ≡ panic
unfolding short_id_of parse_short_id hex_pairs is_char_boundary
short_id_of-panics a b c rest e low high =
    ground (arith, strip_prefix-append service_prefix (a ∷ b ∷ c ∷ rest))

-- A device in range whose name is the prefix with 16 bytes behind it, of which the third is inside a
-- character, ends a discovery that is still read and has not ended: the task panics, and whatever other
-- devices are found later, nothing more is announced.
pub discover-panics :
    (before after : List (Bool × Signal)) (is_open : Bool) (path : Bytes) (a b c : ℕ) (rest : Bytes)
    → length rest ≡ 13
    → 128 ≤ c
    → c < 192
    → (discover before).1 ≡ false
    → All (λ x. x.0 ≡ true) before
    → discover
        (before ++ (is_open, peer_found path (some (service_prefix ++ a ∷ b ∷ c ∷ rest))) ∷ after)
      ≡ ((discover before).0, true)
unfolding discover
discover-panics [] after is_open path a b c rest e low high quiet open_all =
    rw (discover, short_id_of-panics a b c rest e low high) refl
discover-panics ((o, unreadable) ∷ before) after is_open path a b c rest e low high quiet open_all =
    discover-panics before after is_open path a b c rest e low high quiet open_all.1
discover-panics ((o, peer_found p name) ∷ before) after is_open path a b c rest e low high quiet
      open_all =
    elim (Fault-cases (short_id_of name)) [
      | inl broken ↦ absurd (let q = rw (discover, broken) at quiet in cc)
      | inr (short_id, read) ↦ elim (List-cases (last_component p)) [
        | inl empty ↦
            rw (discover, read, empty)
              (discover-panics before after is_open path a b c rest e low high
                (let q = rw (discover, read, empty) at quiet in q) open_all.1)
        | inr (d, mac, some_mac) ↦
            rw (discover, read, some_mac, open_all.0)
              (let q = rw (discover, read, some_mac, open_all.0) at quiet in
                ap (λ r. (peer_announcement (d ∷ mac) short_id ∷ r.0, r.1))
                  (discover-panics before after is_open path a b c rest e low high q open_all.1))
      ]
    ]
