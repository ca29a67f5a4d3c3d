-- ===== src/Discovery/Tracker/Verified.antt =====
-- What a tracker holds after any requests and collections.
use go_iroh_experiments.Base.{
  ℕ, zero, suc, ◌/◌, ◌≡◌, refl, inl, inr, true, List, [], ◌∷◌, Option, some, ltb, All, length,
  Bytes, Bool-cases, Option-cases,
}
use go_iroh_experiments.Go.Int.{ℤ, pos, negsuc}
use go_iroh_experiments.Discovery.Api.{Api}
use go_iroh_experiments.Discovery.Protocol.{SignedAnnounce}
use go_iroh_experiments.Discovery.Store.{
  Store, Slot, StoreKey, put_slot, put_announce, make_store_key, same_key, cutoff, keep_since, gc,
  verify_signed_announce,
}
use go_iroh_experiments.Discovery.Tracker.{
  Request, request_announce, request_query, request_size_limit, handle_announce, handle_kind,
  handle_request,
}

-- The slot holds an announce that verifies, under the key of its content, kind and host.
abbrev pub IsGenuine : Api → Slot → Type 0
IsGenuine api s =
    (verify_signed_announce api s.value ≡ true)
    × (make_store_key s.value.announce.content s.value.announce.kind s.value.announce.host
        ≡ some s.key)

module _ (api : Api) where
  put_slot-Genuine :
      (k : StoreKey) (sa : SignedAnnounce) (slots : List Slot)
      → IsGenuine api (record { key = k; value = sa })
      → All (IsGenuine api) slots
      → All (IsGenuine api) (put_slot k sa slots)
  unfolding put_slot
  put_slot-Genuine k sa [] h hs = (h, tt)
  put_slot-Genuine k sa (s ∷ slots) h hs = elim (Bool-cases (same_key s.key k)) [
    | inl same ↦ rw same ((h, hs.1))
    | inr other ↦ rw other ((hs.0, put_slot-Genuine k sa slots h hs.1))
  ]

  keep_since-Genuine :
      (limit : ℕ) (slots : List Slot)
      → All (IsGenuine api) slots
      → All (IsGenuine api) (keep_since limit slots)
  unfolding keep_since
  keep_since-Genuine limit [] hs = tt
  keep_since-Genuine limit (s ∷ slots) hs =
      elim (Bool-cases (ltb s.value.announce.timestamp limit)) [
        | inl old ↦ rw old (keep_since-Genuine limit slots hs.1)
        | inr new ↦ rw new ((hs.0, keep_since-Genuine limit slots hs.1))
      ]

  abbrev pub AllGenuine : Store → Type 0
  AllGenuine s = All (IsGenuine api) s.announce

  gc-Genuine : (s : Store) (now : ℕ) → AllGenuine s → AllGenuine (gc s now)
  unfolding gc
  gc-Genuine s now h = collected s.expiry refl
    where
      collected : (x : ℤ) → s.expiry ≡ x → AllGenuine (gc s now)
      collected (pos zero) e = rw (gc, e) h
      collected (pos (suc n)) e =
          rw (gc, e) (keep_since-Genuine (cutoff now (suc n / 1000)) s.announce h)
      collected (negsuc n) e = rw (gc, e) h

  module _ (unmarshal : Bytes → Option Request) where
    handle_announce-Genuine :
        (s : Store) (sa : SignedAnnounce)
        → AllGenuine s
        → AllGenuine (handle_announce api unmarshal s sa).0
    unfolding handle_announce put_announce
    handle_announce-Genuine s sa h = elim (Bool-cases (verify_signed_announce api sa)) [
      | inl valid ↦
          elim (Option-cases
            (make_store_key sa.announce.content sa.announce.kind sa.announce.host)) [
              | inl e ↦ rw (handle_announce, valid, put_announce, e) h
              | inr (k, e) ↦
                  rw (handle_announce, valid, put_announce, e)
                    (put_slot-Genuine k sa s.announce (valid, e) h)
            ]
      | inr forged ↦ rw (handle_announce, forged) h
    ]

    handle_request-Genuine :
        (s : Store) (message : Bytes)
        → AllGenuine s
        → AllGenuine (handle_request api unmarshal s message).0
    unfolding handle_request handle_kind
    handle_request-Genuine s message h =
        elim (Bool-cases (ltb request_size_limit (length message))) [
          | inl large ↦ rw (handle_request, large) h
          | inr small ↦ elim (Option-cases (unmarshal message)) [
            | inl e ↦ rw (handle_request, small, e) h
            | inr (request, e) ↦ rw (handle_request, small, e) (by_request request)
          ]
        ]
      where
        by_request : (request : Request) → AllGenuine (handle_kind api unmarshal s request).0
        by_request (request_announce sa) = handle_announce-Genuine s sa h
        by_request (request_query q) = h

    -- What happens to a tracker's store.
    pub data Event : Type 0 where
      requested : Bytes → Event
      collected_at : ℕ → Event

    unfoldable pub run : Store → List Event → Store
    run s [] = s
    run s (requested message ∷ events) = run (handle_request api unmarshal s message).0 events
    run s (collected_at now ∷ events) = run (gc s now) events

    run-keeps : (s : Store) (events : List Event) → AllGenuine s → AllGenuine (run s events)
    unfolding run
    run-keeps s [] h = h
    run-keeps s (requested message ∷ events) h =
        run-keeps (handle_request api unmarshal s message).0 events
          (handle_request-Genuine s message h)
    run-keeps s (collected_at now ∷ events) h = run-keeps (gc s now) events (gc-Genuine s now h)

    -- After any requests and collections on a new store, each announce that the tracker holds
    -- verifies and stands under the key of its content, kind and host.
    pub run-AllGenuine :
        (expiry : ℤ) (events : List Event)
        → AllGenuine (run (record { announce = []; expiry = expiry }) events)
    run-AllGenuine expiry events = run-keeps (record { announce = []; expiry = expiry }) events tt
