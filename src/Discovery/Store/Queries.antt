-- ===== src/Discovery/Store/Queries.antt =====
-- What a query returns, and what the garbage collection keeps.
use mathlib.Core.List.{Perm}
use go_iroh_experiments.Base.{
  ◌==◌, equal, equal_iff, ==_iff, ℕ, suc, ◌+◌, ◌-◌, ◌/◌, ◌%◌, ◌^◌, ◌≤◌, ◌<◌, ◌≡◌, ap, ◌↔◌, inl, inr,
  true, List, [], ◌∷◌, arith, ltb, In, Bool-cases,
}
use go_iroh_experiments.Go.Int.{pos}
use go_iroh_experiments.Discovery.Api.{Api}
use go_iroh_experiments.Discovery.Protocol.{
  SignedAnnounce, Query, announce_complete, encode_announce,
}
use go_iroh_experiments.Discovery.Store.{
  Store, Slot, cutoff, keep_since, gc, answers, same_content, verify_signed_announce, collect,
  query,
}
use go_iroh_experiments.Discovery.Store.Sorted.{IsHostOrder, AreSorted, sort-AreSorted, sort-perm}

-- The announce is one that the query asks for: of its content, complete if it asks for complete ones,
-- and with a signature that verifies if it asks for verified ones.
pub record IsAsked (api : Api) (q : Query) (slot : Slot) : Type 0 where
  pub key_hash : slot.key.hash ≡ q.content.hash
  pub content_hash : slot.value.announce.content.hash ≡ q.content.hash
  pub content_format : slot.value.announce.content.format ≡ q.content.format
  pub complete : q.flags.complete ≡ true → slot.value.announce.kind ≡ announce_complete
  pub verified :
      q.flags.verified ≡ true
      → api.verify slot.value.announce.host
          (encode_announce api slot.value.announce)
          slot.value.signature
        ≡ true

-- The values of the slots that the query asks for, one of each, in the order of the slots.
pub data Selects (api : Api) (q : Query) : List Slot → List SignedAnnounce → Type 0 where
  no_slots : Selects api q [] []
  takes :
      {slot : Slot} {slots : List Slot} {out : List SignedAnnounce}
      → IsAsked api q slot
      → Selects api q slots out
      → Selects api q (slot ∷ slots) (slot.value ∷ out)
  skips :
      {slot : Slot} {slots : List Slot} {out : List SignedAnnounce}
      → ¬ IsAsked api q slot
      → Selects api q slots out
      → Selects api q (slot ∷ slots) out

module _ (api : Api) (q : Query) where
  answers-IsAsked : (slot : Slot) → answers api q slot ≡ true → IsAsked api q slot
  unfolding answers same_content verify_signed_announce
  answers-IsAsked slot h =
      let content = slot.value.announce.content in
      record {
        key_hash = ground (arith, equal_iff slot.key.hash q.content.hash);
        content_hash = ground (arith, equal_iff content.hash q.content.hash);
        content_format = ground (arith, ==_iff content.format q.content.format);
        complete = λ c. ground (arith, ==_iff slot.value.announce.kind announce_complete);
        verified = λ v. ground arith;
      }

  IsAsked-answers : (slot : Slot) → IsAsked api q slot → answers api q slot ≡ true
  unfolding answers same_content verify_signed_announce
  IsAsked-answers slot a =
      let content = slot.value.announce.content in
      let same_key : equal slot.key.hash q.content.hash ≡ true =
        (equal_iff slot.key.hash q.content.hash).1 a.key_hash in
      let same_hash : equal content.hash q.content.hash ≡ true =
        (equal_iff content.hash q.content.hash).1 a.content_hash in
      let same_format : (content.format == q.content.format) ≡ true =
        (==_iff content.format q.content.format).1 a.content_format in
      ground (arith, a.complete, a.verified, ==_iff slot.value.announce.kind announce_complete)

  collect-Selects : (slots : List Slot) → Selects api q slots (collect api q slots)
  unfolding collect
  collect-Selects [] = no_slots
  collect-Selects (s ∷ slots) = elim (Bool-cases (answers api q s)) [
    | inl hit ↦ rw hit (takes (answers-IsAsked s hit) (collect-Selects slots))
    | inr miss ↦ rw miss (
        skips (λ a. let hit = IsAsked-answers s a in absurd (ground arith)) (collect-Selects slots))
  ]

  -- A query returns the stored announces that it asks for, each as often as it is stored, in an
  -- order in which no host comes before one in front of it. It asks for an announce of its content
  -- (by the key and by the announce), complete if it asks for complete ones, and with a signature
  -- that verifies if it asks for verified ones.
  pub query-Selects :
      (o : IsHostOrder api) (s : Store)
      → AreSorted api (query api s q)
        × ((out : List SignedAnnounce) × Selects api q s.announce out × Perm out (query api s q))
  unfolding query
  query-Selects o s = (
    sort-AreSorted api o (collect api q s.announce),
    (
      collect api q s.announce,
      collect-Selects s.announce,
      sort-perm api (collect api q s.announce),
    ),
  )

keep_since-In :
    (limit : ℕ) (slot : Slot) (slots : List Slot)
    → In slot (keep_since limit slots) ↔ (In slot slots × (limit ≤ slot.value.announce.timestamp))
unfolding keep_since
keep_since-In limit slot [] = (λ h. absurd h, λ h. absurd h.0)
keep_since-In limit slot (s ∷ slots) =
    let ih = keep_since-In limit slot slots in
    elim (Bool-cases (ltb s.value.announce.timestamp limit)) [
      | inl old ↦ rw old (
          (
            λ h. let (i, l) = ih.0 h in (inr i, l),
            λ (i, l). elim i [
              | inl e ↦
                  let t = ap (λ (x : Slot). x.value.announce.timestamp) e in
                  absurd (ground (arith, t))
              | inr j ↦ ih.1 (j, l)
            ],
          ))
      | inr new ↦ rw new (
          (
            λ h. elim h [
              | inl e ↦
                  let t = ap (λ (x : Slot). x.value.announce.timestamp) e in
                  (inl e, ground (arith, t))
              | inr i ↦ let (j, l) = ih.0 i in (inr j, l)
            ],
            λ (i, l). elim i [ inl e ↦ inl e | inr j ↦ inr (ih.1 (j, l)) ],
          ))
    ]

no_wrap : (now us : ℕ) → now < 2 ^ 64 → us ≤ now → (now + 2 ^ 64 - us) % 2 ^ 64 ≡ now - us
no_wrap now us small l = omega arith

cutoff_iff : (now us t : ℕ) → now < 2 ^ 64 → (cutoff now us ≤ t) ↔ (now ≤ t + us)
unfolding cutoff
cutoff_iff now us t small = elim (Bool-cases (ltb now us)) [
  | inl less ↦ rw less (ground arith)
  | inr more ↦ rw more (ground (arith, (let l : us ≤ now = ground arith in no_wrap now us small l)))
]

-- With a positive expiry of `e` nanoseconds, the collection at the time `now` keeps exactly the
-- announces that are no older than the expiry in whole microseconds.
pub gc-keeps :
    (s : Store) (now e : ℕ) (slot : Slot)
    → now < 2 ^ 64
    → s.expiry ≡ pos (suc e)
    → In slot (gc s now).announce
      ↔ (In slot s.announce × (now ≤ slot.value.announce.timestamp + suc e / 1000))
unfolding gc
gc-keeps s now e slot small expiry =
    let since = keep_since-In (cutoff now (suc e / 1000)) slot s.announce in
    let age = cutoff_iff now (suc e / 1000) slot.value.announce.timestamp small in
    rw expiry ((λ h. let (i, l) = since.0 h in (i, age.0 l), λ (i, l). since.1 (i, age.1 l)))
