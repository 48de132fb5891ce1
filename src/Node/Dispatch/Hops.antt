-- ===== src/Node/Dispatch/Hops.antt =====
-- The hop counts of frames that nodes relay to one another.
use pathweave.Base.{
  ℕ, suc, ◌+◌, ◌≤◌, min, ◌≡◌, ◌⊎◌, refl, sym, ap, ap₂, ◌∙◌, subst, List, [], ◌∷◌, ◌++◌,
  append_assoc, arith, inl, inr, ◌==◌, if◌then◌else◌, length, All, length-append,
}
use pathweave.Types.{Bytes, PeerId, PublicKey, bytes_eq, Result}
use pathweave.Bytes.{Fault, panic, ret, index, to_be_bytes}
use pathweave.Bytes.Laws.{index-append, index_front, length-to_be_bytes}
use pathweave.KeyAnnouncement.{encode_key_announcement}
use pathweave.Node.Dispatch.{max_ttl, Relay, NodeState, routed_body, dispatch_payload}
use pathweave.Node.Dispatch.Relays.{IsRelayOf, dispatch_payload-relays}
use pathweave.Node.Dispatch.Effects.{IsRelayed, forwarded, announced}
use pathweave.Router.Dial.{framed}

-- The byte of the hop count, capped as the receiver caps it; 0 where there is none.
abbrev byte : Fault ℕ → ℕ
byte panic = 0
byte (ret b) = b

unfoldable pub hops_left : Bytes → ℕ
hops_left payload =
    let at = if byte (index payload 8) == 0x02 then 73 else 41 in
    min (byte (index payload at)) max_ttl

forwarded_hops :
    (payload : Bytes) (flag hops : ℕ)
    → (flag ≡ 0x01) ⊎ (flag ≡ 0x03)
    → index payload 8 ≡ ret flag
    → index payload 41 ≡ ret hops
    → hops_left payload ≡ min hops max_ttl
unfolding hops_left
forwarded_hops payload flag hops (inl g) i h = rw (i, g, h) refl
forwarded_hops payload flag hops (inr g) i h = rw (i, g, h) refl

announced_hops :
    (payload : Bytes) (hops : ℕ)
    → index payload 8 ≡ ret 0x02
    → index payload 73 ≡ ret hops
    → hops_left payload ≡ min hops max_ttl
unfolding hops_left
announced_hops payload hops i h = rw (i, h) refl

framed_split : (id : ℕ) (body : Bytes) (i : ℕ) → index (framed id body) (8 + i) ≡ index body i
unfolding framed
framed_split id body i =
    ap (λ k. index (to_be_bytes 8 id ++ body) (k + i)) (sym (length-to_be_bytes 8 id))
    ∙ index-append (to_be_bytes 8 id) body i

routed-hops :
    (id flag ttl : ℕ) (dest rest : Bytes)
    → (flag ≡ 0x01) ⊎ (flag ≡ 0x03)
    → length dest ≡ 32
    → hops_left (framed id (routed_body flag dest ttl rest)) ≡ min ttl max_ttl
unfolding routed_body
routed-hops id flag ttl dest rest f e =
    let body = flag ∷ (dest ++ ttl ∷ rest) in
    let at : index body 33 ≡ ret ttl =
      ap (index body) (let q : 33 ≡ length (flag ∷ dest) = omega arith in q)
      ∙ index_front (flag ∷ dest) ttl rest in
    forwarded_hops (framed id body) flag ttl f (framed_split id body 0 ∙ unfold index in refl)
      (framed_split id body 33 ∙ at)

key-hops :
    (id ttl : ℕ) (p k : Bytes)
    → length p ≡ 32
    → length k ≡ 32
    → hops_left (framed id (encode_key_announcement p k ttl)) ≡ min ttl max_ttl
unfolding encode_key_announcement
key-hops id ttl p k hp hk =
    let body = 0x02 ∷ (p ++ (k ++ ttl ∷ [])) in
    let at : index body 65 ≡ ret ttl =
      ap₂ index (ap (λ r. 0x02 ∷ r) (sym (append_assoc p k (ttl ∷ []))))
        (let q : 65 ≡ length (0x02 ∷ (p ++ k)) = omega (arith, length-append p k) in q)
      ∙ index_front (0x02 ∷ (p ++ k)) ttl [] in
    announced_hops (framed id body) ttl (framed_split id body 0 ∙ unfold index in refl)
      (framed_split id body 65 ∙ at)

-- The frame in which a relay leaves has fewer hops left than the frame that caused it.
relay-hops :
    (hash : Bytes → Bytes) (payload body : Bytes) (id : ℕ)
    → IsRelayed hash payload body
    → suc (hops_left (framed id body)) ≡ hops_left payload
relay-hops hash payload _ id (forwarded {flag} {hops} {ttl} {dest} {rest} f i d len h m r) =
    let out = routed-hops id flag ttl dest rest f len in
    let from = forwarded_hops payload flag hops f i h in omega arith
relay-hops hash payload _ id (announced {hops} {ttl} p k i lp lk len h m own) =
    let out = key-hops id ttl p k lp lk in let from = announced_hops payload hops i h in omega arith

-- A frame that travels from node to node: dispatched at a node, which spawns relays of it, one of
-- which is sent and dispatched at the next node.
pub data Travels (hash : Bytes → Bytes) (unseal : PeerId → PublicKey → Bytes → Result Bytes)
    : ℕ → Bytes → Type 0 where
  start : (payload : Bytes) → Travels hash unseal 0 payload
  hop :
      {n : ℕ} {payload : Bytes} (s s' : NodeState) (now : ℕ) (sender : PeerId)
      (before after : List Relay) (r : Relay)
      → Travels hash unseal n payload
      → s.relays ≡ []
      → dispatch_payload hash unseal s now sender payload ≡ ret s'
      → s'.relays ≡ before ++ r ∷ after
      → Travels hash unseal (suc n) (framed r.message_id r.body)

module _ {ℓ μ} {A : Type ℓ} where
  All-middle : (P : A → Type μ) (xs : List A) (x : A) (ys : List A) → All P (xs ++ x ∷ ys) → P x
  All-middle P [] x ys h = h.0
  All-middle P (z ∷ xs) x ys h = All-middle P xs x ys h.1

dispatched : Fault NodeState → List Relay
dispatched panic = []
dispatched (ret s) = s.relays

spawned-IsRelayed :
    (hash : Bytes → Bytes) (unseal : PeerId → PublicKey → Bytes → Result Bytes) (s s' : NodeState)
    (now : ℕ) (sender : PeerId) (payload : Bytes) (before after : List Relay) (r : Relay)
    → s.relays ≡ []
    → dispatch_payload hash unseal s now sender payload ≡ ret s'
    → s'.relays ≡ before ++ r ∷ after
    → IsRelayed hash payload r.body
unfolding dispatched
spawned-IsRelayed hash unseal s s' now sender payload before after r empty e f =
    let (s1, new, e1, g, h) = dispatch_payload-relays hash unseal s now sender payload in
    let same : new ≡ before ++ r ∷ after =
      ap (λ xs. xs ++ new) (sym empty) ∙ sym g ∙ ap dispatched (sym e1 ∙ e) ∙ f in
    (All-middle (IsRelayOf hash sender s.local_peer_id payload) before r after
      (subst (All (IsRelayOf hash sender s.local_peer_id payload)) same h)).3

-- However many nodes relay a frame to one another, in whatever states and at whatever times, and
-- whatever byte its first sender wrote as its hop count: the hops that it has travelled and those
-- that it has left are together at most MAX_TTL.
pub Travels-bound :
    (hash : Bytes → Bytes) (unseal : PeerId → PublicKey → Bytes → Result Bytes) (n : ℕ)
    (payload : Bytes)
    → Travels hash unseal n payload
    → n + hops_left payload ≤ max_ttl
Travels-bound hash unseal _ _ (start payload) = unfold hops_left in omega arith
Travels-bound hash unseal _ _ (hop {n} {payload} s s' now sender before after r t empty e f) =
    let so_far = Travels-bound hash unseal n payload t in
    let less =
      relay-hops hash payload r.body r.message_id
        (spawned-IsRelayed hash unseal s s' now sender payload before after r empty e f) in
    omega arith
