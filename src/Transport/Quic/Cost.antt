-- ===== src/Transport/Quic/Cost.antt =====
-- `detect_network_cost` of crates/pathweave-transport-quic/src/lib.rs, for Linux, Windows and macOS.
-- Texts are of ASCII characters.
use pathweave.Base.{
  ℕ, Bool, true, false, ◌&&◌, ◌||◌, ◌≡◌, ◌↔◌, refl, sym, ap, ◌∙◌, List, [], ◌∷◌, Option, none, some,
  arith, inl, inr, leb, ◌==◌, if◌then◌else◌, Bool-cases, replicate, any, ◌=?◌, mem,
}
use pathweave.Types.{Bytes, bytes_eq, Result, ok, err, TransportCost, free, metered, unknown}

unfoldable pub is_space : ℕ → Bool
is_space b = b == 32 || (leb 9 b && leb b 13)

unfoldable pub push : Bytes → List Bytes → List Bytes
push [] words = words
push (b ∷ word) words = (b ∷ word) ∷ words

-- The word that the text begins with, which may be empty, and the words after it.
unfoldable pub words : Bytes → Bytes × List Bytes
words [] = ([], [])
words (b ∷ text) =
    let (word, more) = words text in if is_space b then ([], push word more) else (b ∷ word, more)

unfoldable pub split_whitespace : Bytes → List Bytes
split_whitespace text = let (word, more) = words text in push word more

-- `lines`, but with an empty line after a final line feed, which has no fields.
unfoldable pub lines : Bytes → Bytes × List Bytes
lines [] = ([], [])
lines (b ∷ text) =
    let (line, more) = lines text in if b == 10 then ([], line ∷ more) else (b ∷ line, more)

unfoldable pub starts_with : Bytes → Bytes → Bool
starts_with text [] = true
starts_with [] (p ∷ prefix) = false
starts_with (b ∷ text) (p ∷ prefix) = b == p && starts_with text prefix

-- The first two fields of a route: the interface, where the destination is "00000000".
unfoldable pub default_iface : List Bytes → Option Bytes
default_iface [] = none
default_iface (iface ∷ []) = none
default_iface (iface ∷ dest ∷ fields) = if dest =? replicate 8 48 then some iface else none

unfoldable pub find_iface : List Bytes → Option Bytes
find_iface [] = none
find_iface (line ∷ more) = elim (default_iface (split_whitespace line)) [
  | some iface ↦ some iface
  | none ↦ find_iface more
]

-- "wlan", "wlp", "wlx"; "eth", "enp", "eno", "ens", "enx".
abbrev pub free_prefixes : List Bytes
free_prefixes =
    (119 ∷ 108 ∷ 97 ∷ 110 ∷ [])
    ∷ (119 ∷ 108 ∷ 112 ∷ [])
    ∷ (119 ∷ 108 ∷ 120 ∷ [])
    ∷ (101 ∷ 116 ∷ 104 ∷ [])
    ∷ (101 ∷ 110 ∷ 112 ∷ [])
    ∷ (101 ∷ 110 ∷ 111 ∷ [])
    ∷ (101 ∷ 110 ∷ 115 ∷ [])
    ∷ (101 ∷ 110 ∷ 120 ∷ [])
    ∷ []

-- "wwan", "rmnet", "ppp".
abbrev pub metered_prefixes : List Bytes
metered_prefixes =
    (119 ∷ 119 ∷ 97 ∷ 110 ∷ []) ∷ (114 ∷ 109 ∷ 110 ∷ 101 ∷ 116 ∷ []) ∷ (112 ∷ 112 ∷ 112 ∷ []) ∷ []

unfoldable pub iface_cost : Option Bytes → TransportCost
iface_cost none = unknown
iface_cost (some name) =
    if any (starts_with name) free_prefixes
    then free
    else if any (starts_with name) metered_prefixes
    then metered
    else unknown

-- The content of /proc/net/route, where it can be read; its first line is skipped.
unfoldable pub linux_network_cost : Option Bytes → TransportCost
linux_network_cost none = unknown
linux_network_cost (some content) =
    let (header, routes) = lines content in iface_cost (find_iface routes)

-- What the system answers, with its tests for `Unrestricted` and `Unknown`.
unfoldable pub windows_network_cost {ℓ} :
    {T : Type ℓ} → (T → Bool) → (T → Bool) → Result T → TransportCost
windows_network_cost is_unrestricted is_unknown (ok cost_type) =
    if is_unrestricted cost_type then free else if is_unknown cost_type then unknown else metered
windows_network_cost is_unrestricted is_unknown (err e) = unknown

-- `SCNetworkInterfaceType`, with `other` for those that the code does not name.
pub data InterfaceType : Type 0 where
  ieee80211 ethernet wwan other : InterfaceType

pub record Interface : Type 0 where
  pub bsd_name : Option Bytes
  pub interface_type : Option InterfaceType

-- `found_free` and `found_metered`, after an interface that is active.
unfoldable pub found : Option InterfaceType → Bool × Bool → Bool × Bool
found (some ieee80211) (found_free, found_metered) = (true, found_metered)
found (some ethernet) (found_free, found_metered) = (true, found_metered)
found (some wwan) (found_free, found_metered) = (found_free, true)
found (some other) so_far = so_far
found none so_far = so_far

unfoldable pub is_active : List Bytes → Option Bytes → Bool
is_active active none = false
is_active active (some bsd) = mem bsd active

unfoldable pub found_in : List Bytes → List Interface → Bool × Bool → Bool × Bool
found_in active [] so_far = so_far
found_in active (iface ∷ ifaces) so_far =
    let after =
      if is_active active iface.bsd_name then found iface.interface_type so_far else so_far in
    found_in active ifaces after

-- `active` are the names of the interfaces that are not loopbacks.
unfoldable pub macos_network_cost : List Bytes → List Interface → TransportCost
macos_network_cost active ifaces =
    let (found_free, found_metered) = found_in active ifaces (false, false) in
    if found_free then free else if found_metered then metered else unknown

-- An interface that is active and free of charge.
abbrev pub is_free : List Bytes → Interface → Bool
is_free active iface =
    is_active active iface.bsd_name && (found iface.interface_type (false, false)).0

found-sticks :
    (type : Option InterfaceType) (so_far : Bool × Bool)
    → (found type so_far).0 ≡ (so_far.0 || (found type (false, false)).0)
unfolding found
found-sticks none (found_free, found_metered) = ground arith
found-sticks (some ieee80211) (found_free, found_metered) = ground arith
found-sticks (some ethernet) (found_free, found_metered) = ground arith
found-sticks (some wwan) (found_free, found_metered) = ground arith
found-sticks (some other) (found_free, found_metered) = ground arith

or_false : (b : Bool) → b ≡ (b || false)
or_false true = refl
or_false false = refl

or_assoc : (a b c : Bool) → ((a || b) || c) ≡ (a || (elim b [ false ↦ c | true ↦ true ]))
or_assoc true b c = refl
or_assoc false true c = refl
or_assoc false false c = refl

found_in-any :
    (active : List Bytes) (ifaces : List Interface) (so_far : Bool × Bool)
    → (found_in active ifaces so_far).0 ≡ (so_far.0 || any (is_free active) ifaces)
unfolding found_in
found_in-any active [] so_far = or_false so_far.0
found_in-any active (iface ∷ ifaces) so_far =
    let type = iface.interface_type in
    let free_here = (found type (false, false)).0 in
    let later = any (is_free active) ifaces in
    elim (Bool-cases (is_active active iface.bsd_name)) [
      | inl e ↦
          rw (found_in, any, is_free, e)
            (found_in-any active ifaces (found type so_far)
              ∙ ap (λ x. x || later) (found-sticks type so_far)
              ∙ or_assoc so_far.0 free_here later)
      | inr e ↦ rw (found_in, any, is_free, e) (found_in-any active ifaces so_far)
    ]

-- On macOS the network is free as soon as one active interface is, wherever it stands in the list.
pub macos_network_cost-free :
    (active : List Bytes) (ifaces : List Interface)
    → (macos_network_cost active ifaces ≡ free) ↔ (any (is_free active) ifaces ≡ true)
unfolding macos_network_cost
macos_network_cost-free active ifaces =
    let e = found_in-any active ifaces (false, false) in
    elim (Bool-cases (found_in active ifaces (false, false)).0) [
      | inl h ↦ (λ g. sym e ∙ h, λ g. rw (macos_network_cost, h) refl)
      | inr h ↦ (
        λ g. elim (Bool-cases (found_in active ifaces (false, false)).1) [
          | inl k ↦
              let told : macos_network_cost active ifaces ≡ metered =
                rw (macos_network_cost, h, k) refl in
              ground (arith, sym g ∙ told)
          | inr k ↦
              let told : macos_network_cost active ifaces ≡ unknown =
                rw (macos_network_cost, h, k) refl in
              ground (arith, sym g ∙ told)
        ],
        λ g. ground (arith, sym h ∙ e ∙ g),
      )
    ]
