-- ===== src/Router.antt =====
-- `Router` of crates/pathweave-core/src/router.rs: the registered transports and the candidates of
-- a send or a connect.
pub mod Candidates
pub mod Health
pub mod Dial
pub mod Send
pub mod Discovery
use mathlib.Core.Option
use pathweave.Base.{
  ℕ, Bool, not, ◌&&◌, List, [], ◌∷◌, ◌++◌, map, Option, none, some, leb, ◌==◌, if◌then◌else◌, any,
  keep_if, ◌=?◌,
}
use pathweave.Types.{
  bytes_eq, transport, PeerAddress, TransportCost, free, metered, unknown, TransportKind,
  PeerAnnouncement, kind,
}
use pathweave.Types.{TransportKind-eq}

-- A transport as the router sees it at one moment; `id` stands for the identity of the `Arc`.
pub record Transport : Type 0 where
  pub id : ℕ
  pub kind_of : TransportKind
  pub cost : TransportCost
  pub local_addresses : List PeerAddress

pub record TransportEntry : Type 0 where
  pub transport : Transport
  pub available : Bool

-- The key of both `sort_by_key` and of `min_by_key`.
unfoldable pub rank : TransportCost → ℕ
rank free = 0
rank metered = 1
rank unknown = 2

abbrev pub Candidate : Type 0
Candidate = Transport × PeerAnnouncement

unfoldable pub any_available : List TransportEntry → Bool
any_available = any (λ e. e.available)

-- `peers.iter().filter_map(…)` for one transport.
unfoldable pub matching : Transport → List PeerAnnouncement → List Candidate
matching t [] = []
matching t (ann ∷ peers) =
    let rest = matching t peers in if kind ann.address =? t.kind_of then (t, ann) ∷ rest else rest

unfoldable pub unsorted : List TransportEntry → List PeerAnnouncement → List Candidate
unsorted [] peers = []
unsorted (e ∷ entries) peers =
    let rest = unsorted entries peers in
    if e.available then matching e.transport peers ++ rest else rest

-- `sort_by_key` of the standard library: stable, so an element goes before the first that is
-- larger.
unfoldable pub sort_insert : Candidate → List Candidate → List Candidate
sort_insert c [] = c ∷ []
sort_insert c (d ∷ ds) =
    let rest = sort_insert c ds in
    if leb (rank c.0.cost) (rank d.0.cost) then c ∷ d ∷ ds else d ∷ rest

unfoldable pub sort_by_cost : List Candidate → List Candidate
sort_by_cost [] = []
sort_by_cost (c ∷ cs) = sort_insert c (sort_by_cost cs)

unfoldable pub candidates : List TransportEntry → List PeerAnnouncement → List Candidate
candidates entries peers = sort_by_cost (unsorted entries peers)

-- `local_addresses`.
unfoldable pub local_addresses : List TransportEntry → List PeerAddress
local_addresses [] = []
local_addresses (e ∷ entries) = e.transport.local_addresses ++ local_addresses entries

-- The first of the cheapest: `min_by_key`.
unfoldable pub cheaper : TransportEntry → Option TransportEntry → Option TransportEntry
cheaper e none = some e
cheaper e (some best) =
    if leb (rank e.transport.cost) (rank best.transport.cost) then some e else some best

unfoldable pub cheapest : List TransportEntry → Option TransportEntry
cheapest [] = none
cheapest (e ∷ entries) = cheaper e (cheapest entries)

-- `next_best_transport`: pointer identity is that of the transport's own `available` flag.
unfoldable pub next_best_transport : List TransportEntry → ℕ → Option TransportKind
next_best_transport entries own =
    Option.map (λ e. e.transport.kind_of)
      (cheapest (keep_if (λ e. not (e.transport.id == own) && e.available) entries))
