-- ===== src/Tests/Transports.antt =====
-- Examples on sessions and transports.
use pathweave.Base.{
  ℕ, suc, true, false, ◌≡◌, ◌≢◌, refl, List, [], ◌∷◌, ◌++◌, ◌==◌, if◌then◌else◌, ap, Option, none,
  some, arith, length, replicate, All,
}
use pathweave.Base.{nat_eq, list_eqb}
use pathweave.Base.Map
use pathweave.Base.Map.{Map}
use pathweave.Types.{Bytes, PublicKey, bytes_eq, ok, PeerAddress}
use pathweave.Transport.Advertising.Medium.{
  Medium, BroadcastConnection, with_bearer, open_channel, drop_connection, connect, packet,
  recv_bytes, dispatch, dispatch_loop, start,
}
use pathweave.Bytes.{ret}
use pathweave.Session.{Noise, Session, initiate, respond}
use pathweave.Session.Handshake.{Completes, established, inbox, responder, initiate-respond}
use pathweave.Session.Handshake
use pathweave.Session.Channel.{InStep, Fits, send_each, recv_each, recv_each-send_each}
use pathweave.Transport.Peripheral.{Event, subscribed, wrote, replied, received, sends}
use pathweave.Transport.Stream.{send_all, recv_n}
use pathweave.Transport.Stream.RoundTrip.{recv_n-send_all}
use pathweave.Transport.Advertising.{short_id_to_hex}
use pathweave.Transport.Advertising.Medium
use pathweave.Transport.Advertising.Medium.{live}
use pathweave.Transport.Advertising.Medium.Arrival.{connect-arrives}
use pathweave.Transport.Advertising.Medium.Reconnect.{dispatch_loop-loses_peer}
use pathweave.Tests.Data.{identity_hash, peer, message}

-- A toy of the Noise library: each message carries the key of its sender.
abbrev Toy : Type 0
Toy = PublicKey × Option PublicKey

abbrev toy : Noise Toy PublicKey
toy = record {
  build_initiator = λ p key remote. some (key, remote);
  build_responder = λ p key remote. some (key, remote);
  write_message = λ s m. some (s, s.0);
  read_message = λ s m. some ((s.0, some m), []);
  get_remote_static = λ s. s.1;
  into_transport_mode = λ s. some s.0;
  encrypt = λ c m. some (c, m);
  decrypt = λ c m. some (c, m);
}

abbrev toy_completes :
    Completes toy (peer 1, none) (peer 2, none) (peer 1) (peer 2) (peer 1) (peer 2)
toy_completes = record {
  i1 = (peer 1, none);
  i2 = (peer 1, some (peer 2));
  i3 = (peer 1, some (peer 2));
  r1 = (peer 2, some (peer 1));
  r2 = (peer 2, some (peer 1));
  r3 = (peer 2, some (peer 1));
  m1 = peer 1;
  m2 = peer 2;
  m3 = peer 1;
  p1 = [];
  p2 = [];
  p3 = [];
  write_one = refl;
  read_one = refl;
  write_two = refl;
  read_two = refl;
  write_three = refl;
  read_three = refl;
  static_i = refl;
  static_r = refl;
  transport_i = refl;
  transport_r = refl;
}

initiate-respond_example :
    let (pi, ri) =
      initiate identity_hash toy
        (peer 1)
        (responder identity_hash toy (peer 2))
        none
        Handshake.start in
    (ri ≡ ok (established identity_hash (peer 2) (peer 1)))
    × ((respond identity_hash toy (peer 2) (inbox pi.sent) Handshake.start).1
        ≡ ok (established identity_hash (peer 1) (peer 2)))
initiate-respond_example =
    initiate-respond identity_hash toy (peer 1) (peer 2) none (peer 1, none) (peer 2, none) (peer 1)
      (peer 2) (peer 1) (peer 2) refl refl toy_completes

-- A toy whose channels count their messages and refuse one out of turn.
abbrev unlock : ℕ → Bytes → Option (ℕ × Bytes)
unlock d [] = none
unlock d (c ∷ m) = if c == d then some (suc d, m) else none

abbrev counting : Noise Toy ℕ
counting = record {
  build_initiator = λ p key remote. some (key, remote);
  build_responder = λ p key remote. some (key, remote);
  write_message = λ s m. some (s, s.0);
  read_message = λ s m. some ((s.0, some m), []);
  get_remote_static = λ s. s.1;
  into_transport_mode = λ s. some 0;
  encrypt = λ c m. some (suc c, c ∷ m);
  decrypt = unlock;
}

counting-InStep : InStep counting (λ c d. c ≡ d)
counting-InStep = record {
  next_sender = λ c d p m. suc c;
  next_receiver = λ c d p m. suc d;
  ciphertext = λ c d p m. c ∷ m;
  encrypts = λ c d p m fits. refl;
  decrypts = λ c d p m fits. ground (arith, p);
  stays = λ c d p m fits. ap suc p;
}

abbrev talking : ℕ → Session ℕ
talking k = established identity_hash (peer k) 3

recv_each-send_each_example :
    let s = talking 2 in
    let r = talking 1 in
    let conn = inbox [] in
    let ms = message ∷ [] ∷ message ∷ [] in
    (s1 : Session ℕ) × (r1 : Session ℕ) × ((send_each identity_hash counting s conn ms
        Handshake.start).1
      ≡ ok s1)
    × ((recv_each identity_hash counting r
          (inbox (send_each identity_hash counting s conn ms Handshake.start).0.sent)
          3
          Handshake.start).1
        ≡ ok (r1, ms))
    × (s1.state ≡ r1.state)
    × (s1.peer_id ≡ s.peer_id)
    × (r1.peer_id ≡ r.peer_id)
unfolding Fits inbox
recv_each-send_each_example =
    recv_each-send_each identity_hash counting (λ c d. c ≡ d) counting-InStep (talking 2)
      (talking 1) (inbox []) (message ∷ [] ∷ message ∷ []) (λ p m. refl)
      (omega arith, (omega arith, (omega arith, tt))) refl

recv_n-send_all_example :
    recv_n 2 ((send_all (λ b. false) [] (message ∷ [] ∷ [])).0 ++ 9 ∷ [])
    ≡ (9 ∷ [], ok (message ∷ [] ∷ []))
recv_n-send_all_example =
    recv_n-send_all (λ b. false) (message ∷ [] ∷ []) (9 ∷ []) (λ b. refl)
      (omega arith, (omega arith, tt))

abbrev started : ℕ → Medium
started n = Medium.start Medium.with_bearer (peer n)

abbrev dialled : BroadcastConnection
dialled = record { local_short_id = replicate 8 1; peer_short_id = replicate 8 9; inbound_rx = 0 }

abbrev accepted : BroadcastConnection
accepted = record { local_short_id = replicate 8 9; peer_short_id = replicate 8 1; inbound_rx = 0 }

connect-arrives_example :
    let there = PeerAddress.ble_advertising (short_id_to_hex (replicate 8 9)) in
    let a1 = open_channel (started 1) (replicate 8 9) in
    (Medium.local_addresses (started 9) ≡ there ∷ [])
    × (connect (started 1) (record { address = there; short_id = none }) ≡ ret (a1, ok dialled))
    × ((b1 : Medium) × (dispatch length (started 9) 5 (packet dialled message) ≡ ret b1)
        × (b1.incoming ≡ [] ++ accepted ∷ [])
        × ((recv_bytes b1 accepted).1 ≡ some message))
    × ((a2 : Medium) × (dispatch length a1 6 (packet accepted []) ≡ ret a2)
        × ((recv_bytes a2 dialled).1 ≡ some []))
unfolding Medium.start Medium.with_bearer live Map.get
connect-arrives_example =
    connect-arrives length (started 1) (started 9) (replicate 8 1) (replicate 8 9) message [] none 5
      6 refl refl
      (
        omega arith,
        (
          omega arith,
          (
            omega arith,
            (omega arith, (omega arith, (omega arith, (omega arith, (omega arith, tt))))),
          ),
        ),
      )
      (λ e. absurd (ground (arith, e))) refl refl refl refl refl

-- "aé" and 13 letters more.
abbrev accented : Bytes
accented = 97 ∷ 195 ∷ 169 ∷ replicate 13 97

-- A node that has accepted one connection of the source 1, which is dropped.
abbrev from_one : BroadcastConnection
from_one = record { local_short_id = replicate 8 9; peer_short_id = replicate 8 1; inbound_rx = 0 }

abbrev heard : Medium
heard = record {
  local_short_id = some (replicate 8 9);
  connections = (replicate 8 1, 0) ∷ [];
  queues = (0, []) ∷ [];
  next_channel = 1;
  incoming = [];
  announced = [];
  recent = [];
}

abbrev again : List (ℕ × Bytes)
again = (5, replicate 8 9 ++ (replicate 8 1 ++ message)) ∷ []

dispatch_loop-loses_peer_example :
    (s' : Medium) × (dispatch_loop length (drop_connection heard from_one) again ≡ ret s')
    × (Map.get (replicate 8 1) s'.connections ≡ some 0)
    × (Map.get 0 s'.queues ≡ none)
    × ((new : List BroadcastConnection) × (s'.incoming ≡ [] ++ new)
        × All (λ c. c.peer_short_id ≢ replicate 8 1) new)
unfolding Map.get list_eqb
dispatch_loop-loses_peer_example =
    dispatch_loop-loses_peer length heard from_one again refl (omega arith)

-- A second subscriber, a write that cannot be read, a reply and another connection in between.
abbrev busy : List Event
busy =
    wrote (some message)
    ∷ subscribed 2
    ∷ wrote none
    ∷ sends message
    ∷ replied true
    ∷ received 5
    ∷ wrote (some [])
    ∷ []
