-- ===== src/Enclave/KnownPeers.antt =====
-- enclaveiroh/knownpeers.go: the key that each endpoint was first seen with. Whether writing the file
-- succeeds is an argument.
use go_iroh_experiments.Base.{
  ◌≡◌, refl, ap, ◌∙◌, inl, inr, Bool, List, [], ◌∷◌, none, some, arith, if◌then◌else◌, Bytes, equal,
  equal_iff, Bool-cases, Option-cases,
}
use go_iroh_experiments.Base.Dict.{Map, lookup, insert, lookup-insert, lookup-insert_self}
use go_iroh_experiments.Enclave.Claim.{Claim}

pub record KnownPeer : Type 0 where
  pub attest_key : Bytes
  pub cd_hash : Bytes
  pub first_seen : Bytes

abbrev pub Peers : Type 0
Peers = Map KnownPeer

-- Nothing wrong, the file was not written, or another key than at first contact.
pub data PinResult : Type 0 where
  pinned : PinResult
  not_saved : PinResult
  key_changed : PinResult

abbrev pub first_contact : Claim → Bytes → KnownPeer
first_contact c now = record { attest_key = c.attest_key; cd_hash = c.cd_hash; first_seen = now }

-- `Pin`, with the time and whether `save` succeeds. The new peer stays in memory when it is not saved.
unfoldable pub pin : Peers → Claim → Bytes → Bool → Peers × PinResult
pin peers c now saves = elim (lookup c.local_endpoint peers) [
  | none ↦
      (insert c.local_endpoint (first_contact c now) peers, (if saves then pinned else not_saved))
  | some known ↦ (peers, (if equal known.attest_key c.attest_key then pinned else key_changed))
]

-- A call of `Pin`: the claim, the time, whether saving succeeds.
unfoldable pub pins : Peers → List (Claim × Bytes × Bool) → Peers
pins peers [] = peers
pins peers ((c, now, saves) ∷ calls) = pins (pin peers c now saves).0 calls

pin-keeps :
    (peers : Peers) (c : Claim) (now : Bytes) (saves : Bool) (e : Bytes) (p : KnownPeer)
    → lookup e peers ≡ some p
    → lookup e (pin peers c now saves).0 ≡ some p
unfolding pin
pin-keeps peers c now saves e p h = elim (Option-cases (lookup c.local_endpoint peers)) [
  | inl new ↦ elim (Bool-cases (equal c.local_endpoint e)) [
    | inl same ↦
        let clash = ap (λ (k : Bytes). lookup k peers) ((equal_iff c.local_endpoint e).0 same) in
        absurd (ground (arith, clash))
    | inr other ↦
        rw (pin, new, lookup-insert c.local_endpoint e (first_contact c now) peers, other) h
  ]
  | inr (known, old) ↦ rw (pin, old) h
]

pins-keep :
    (peers : Peers) (calls : List (Claim × Bytes × Bool)) (e : Bytes) (p : KnownPeer)
    → lookup e peers ≡ some p
    → lookup e (pins peers calls) ≡ some p
unfolding pins
pins-keep peers [] e p h = h
pins-keep peers ((c, now, saves) ∷ calls) e p h =
    pins-keep (pin peers c now saves).0 calls e p (pin-keeps peers c now saves e p h)

-- The peer that a call of `Pin` leaves for the claim's endpoint when it finds nothing wrong.
pin-holds :
    (peers : Peers) (c : Claim) (now : Bytes) (saves : Bool)
    → (pin peers c now saves).1 ≡ pinned
    → (p : KnownPeer) × (lookup c.local_endpoint (pin peers c now saves).0 ≡ some p)
      × (p.attest_key ≡ c.attest_key)
unfolding pin
pin-holds peers c now saves h = elim (Option-cases (lookup c.local_endpoint peers)) [
  | inl new ↦ (
    first_contact c now,
    rw (pin, new) (lookup-insert_self c.local_endpoint (first_contact c now) peers),
    refl,
  )
  | inr (known, old) ↦
      (known, rw (pin, old) old, ground (arith, old, equal_iff known.attest_key c.attest_key))
]

pin-known :
    (peers : Peers) (d : Claim) (later : Bytes) (again : Bool) (p : KnownPeer)
    → lookup d.local_endpoint peers ≡ some p
    → (pin peers d later again).1
      ≡ (if equal p.attest_key d.attest_key then pinned else key_changed)
unfolding pin
pin-known peers d later again p h = rw (pin, h) refl

-- Trust on first use: once `Pin` has accepted a claim of an endpoint, then after any further calls it
-- accepts a claim of that endpoint exactly if the claim has the same attestation key; saving then
-- plays no part.
pub pin-first_use :
    (peers : Peers) (c d : Claim) (now later : Bytes) (saves again : Bool)
    (calls : List (Claim × Bytes × Bool))
    → (pin peers c now saves).1 ≡ pinned
    → d.local_endpoint ≡ c.local_endpoint
    → (pin (pins (pin peers c now saves).0 calls) d later again).1
      ≡ (if equal c.attest_key d.attest_key then pinned else key_changed)
pin-first_use peers c d now later saves again calls h same =
    let (p, held, key) = pin-holds peers c now saves h in
    let still =
      ap (λ (k : Bytes). lookup k (pins (pin peers c now saves).0 calls)) same
      ∙ pins-keep (pin peers c now saves).0 calls c.local_endpoint p held in
    pin-known (pins (pin peers c now saves).0 calls) d later again p still
    ∙ ap (λ (k : Bytes). if equal k d.attest_key then pinned else key_changed) key
