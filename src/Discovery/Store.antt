-- ===== src/Discovery/Store.antt =====
-- contentdiscovery/store.go: the announces by content, kind and host.
pub mod Sorted
pub mod Queries
use go_iroh_experiments.Base.{
  ℕ, zero, suc, ◌+◌, ◌-◌, ◌/◌, ◌%◌, ◌^◌, Bool, true, false, not, ◌&&◌, ◌||◌, List, [], ◌∷◌, Option,
  none, some, ltb, ◌==◌, if◌then◌else◌, Bytes, equal,
}
use go_iroh_experiments.Go.Int.{ℤ, pos, negsuc}
use go_iroh_experiments.Discovery.Api.{Content, Api}
use go_iroh_experiments.Discovery.Protocol.{
  Announce, SignedAnnounce, Query, announce_complete, encode_announce,
}

-- A `storeKey` with its value; `format` and `kind` are bytes.
pub record StoreKey : Type 0 where
  pub hash : Bytes
  pub format : ℕ
  pub kind : ℕ
  pub host : Bytes

pub record Slot : Type 0 where
  pub key : StoreKey
  pub value : SignedAnnounce

-- The map `announce`, in an order of its iteration, and the expiry in nanoseconds.
pub record Store : Type 0 where
  pub announce : List Slot
  pub expiry : ℤ

unfoldable pub same_key : StoreKey → StoreKey → Bool
same_key j k =
    equal j.hash k.hash && (j.format == k.format && (j.kind == k.kind && equal j.host k.host))

unfoldable pub make_store_key : Content → ℕ → Bytes → Option StoreKey
make_store_key content kind host =
    if ltb 255 content.format
    then none
    else if ltb 255 kind
    then none
    else some (record { hash = content.hash; format = content.format; kind = kind; host = host })

unfoldable pub put_slot : StoreKey → SignedAnnounce → List Slot → List Slot
put_slot k sa [] = record { key = k; value = sa } ∷ []
put_slot k sa (s ∷ slots) =
    if same_key s.key k then record { key = k; value = sa } ∷ slots else s ∷ put_slot k sa slots

-- `none` is the error of `makeStoreKey`.
unfoldable pub put_announce : Store → SignedAnnounce → Option Store
put_announce s sa = elim (make_store_key sa.announce.content sa.announce.kind sa.announce.host) [
  | none ↦ none
  | some k ↦ some (record { announce = put_slot k sa s.announce; expiry = s.expiry })
]

unfoldable pub same_content : Content → Content → Bool
same_content c d = equal c.hash d.hash && c.format == d.format

-- `GC` in whole microseconds: `uint64(now) - uint64(expiry)`, or 0 before.
unfoldable pub cutoff : ℕ → ℕ → ℕ
cutoff now us = let wrapped = (now + 2 ^ 64 - us) % 2 ^ 64 in if ltb now us then 0 else wrapped

unfoldable pub keep_since : ℕ → List Slot → List Slot
keep_since limit [] = []
keep_since limit (s ∷ slots) =
    let rest = keep_since limit slots in
    if ltb s.value.announce.timestamp limit then rest else s ∷ rest

unfoldable pub gc : Store → ℕ → Store
gc s now = elim s.expiry [
  | pos zero ↦ s
  | pos (suc e) ↦ record {
    announce = keep_since (cutoff now (suc e / 1000)) s.announce;
    expiry = s.expiry;
  }
  | negsuc n ↦ s
]

module _ (api : Api) where
  unfoldable pub verify_signed_announce : SignedAnnounce → Bool
  verify_signed_announce sa =
      api.verify sa.announce.host (encode_announce api sa.announce) sa.signature

  -- The tests of the loop of `Query`
  unfoldable pub answers : Query → Slot → Bool
  answers q s =
      equal s.key.hash q.content.hash
      && (same_content s.value.announce.content q.content
          && (not (q.flags.complete && not (s.value.announce.kind == announce_complete))
              && not (q.flags.verified && not (verify_signed_announce s.value))))

  unfoldable pub collect : Query → List Slot → List SignedAnnounce
  collect q [] = []
  collect q (s ∷ slots) = let rest = collect q slots in if answers q s then s.value ∷ rest else rest

  -- `sort.Slice` by host
  unfoldable pub insert_sorted : SignedAnnounce → List SignedAnnounce → List SignedAnnounce
  insert_sorted sa [] = sa ∷ []
  insert_sorted sa (x ∷ xs) =
      let rest = insert_sorted sa xs in
      if api.host_ltb x.announce.host sa.announce.host then x ∷ rest else sa ∷ x ∷ xs

  unfoldable pub sort_hosts : List SignedAnnounce → List SignedAnnounce
  sort_hosts [] = []
  sort_hosts (x ∷ xs) = insert_sorted x (sort_hosts xs)

  unfoldable pub query : Store → Query → List SignedAnnounce
  query s q = sort_hosts (collect q s.announce)
