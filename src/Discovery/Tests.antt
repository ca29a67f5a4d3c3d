-- ===== src/Discovery/Tests.antt =====
-- The contentdiscovery theorems at one announce, with small functions in place of the packages.
use mathlib.Core.List.{append_assoc}
use mathlib.Core.List.{Perm}
use go_iroh_experiments.Base.{
  List, ℕ, ◌≡◌, refl, ap, ap₂, ◌∙◌, true, false, [], ◌∷◌, ◌++◌, Option, none, some, ltb, arith,
  length, take, drop, take_append, drop_append, replicate, Bytes, codes, equal,
}
use go_iroh_experiments.Go.Int.{pos}
use go_iroh_experiments.Go.Uvarint.{uvarint, get_uvarint, get-uvarint}
use go_iroh_experiments.Discovery.Api.{Api, Content, IsPostcard}
use go_iroh_experiments.Discovery.Protocol.{Announce, SignedAnnounce, Query, IsAnnounce}
use go_iroh_experiments.Discovery.Store.{
  Store, Slot, StoreKey, put_announce, put_slot, make_store_key, answers, same_content,
  verify_signed_announce, query,
}
use go_iroh_experiments.Discovery.Store.Sorted.{IsHostOrder, AreSorted}
use go_iroh_experiments.Discovery.Store.Queries.{Selects, query-Selects}
use go_iroh_experiments.Discovery.Tracker.{Request, request_announce}
use go_iroh_experiments.Discovery.Tracker.Verified.{
  AllGenuine, requested, collected_at, run, run-AllGenuine,
}

-- The hash behind its length, then the format.
abbrev put_content : Content → Bytes
put_content c = length c.hash ∷ (c.hash ++ (c.format ∷ []))

abbrev behind_hash : Bytes → Bytes → Option (Content × Bytes)
behind_hash h [] = none
behind_hash h (f ∷ rest) = some (record { hash = h; format = f }, rest)

abbrev get_content : Bytes → Option (Content × Bytes)
get_content [] = none
get_content (n ∷ s) = behind_hash (take n s) (drop n s)

content-read : (c : Content) (rest : Bytes) → get_content (put_content c ++ rest) ≡ some (c, rest)
content-read c rest =
    ap₂ (λ (h s : Bytes). behind_hash h s)
      (ap (take (length c.hash)) (append_assoc c.hash (c.format ∷ []) rest)
        ∙ take_append c.hash (c.format ∷ rest))
      (ap (drop (length c.hash)) (append_assoc c.hash (c.format ∷ []) rest)
        ∙ drop_append c.hash (c.format ∷ rest))

-- Hosts in the order of their first bytes.
abbrev first_byte : Bytes → ℕ
first_byte [] = 0
first_byte (b ∷ bs) = b

abbrev test_api : Api
test_api = record {
  public_key = λ s. some s;
  verify = λ host msg sig. equal sig host;
  host_ltb = λ a b. ltb (first_byte a) (first_byte b);
  put_uint = uvarint;
  get_uint = get_uvarint;
  put_content = put_content;
  get_content = get_content;
}

test_api-IsPostcard : IsPostcard test_api
test_api-IsPostcard = record { get-put_uint = get-uvarint; get-put_content = content-read }

ltb-asym : (m n : ℕ) → ltb m n ≡ true → ltb n m ≡ false
ltb-asym m n h = ground arith

ltb_trans : (k m n : ℕ) → ltb m k ≡ false → ltb n m ≡ false → ltb n k ≡ false
ltb_trans k m n h i = ground arith

test_api-IsHostOrder : IsHostOrder test_api
test_api-IsHostOrder = record {
  asym = λ a b. ltb-asym (first_byte a) (first_byte b);
  trans = λ a b c. ltb_trans (first_byte a) (first_byte b) (first_byte c);
}

abbrev host : Bytes
host = replicate 32 5

abbrev content : Content
content = record { hash = codes "blob"; format = 0 }

abbrev announce : Announce
announce = record { host = host; content = content; kind = 1; timestamp = 1_700_000_000 }

abbrev signed : SignedAnnounce
signed = record { announce = announce; signature = host }

announce-IsAnnounce : IsAnnounce test_api announce
announce-IsAnnounce = record {
  host_size = refl;
  host_key = refl;
  kind_small = omega arith;
  timestamp_small = omega arith;
}

abbrev complete_hosts : Query
complete_hosts = record { content = content; flags = record { complete = true; verified = true } }

abbrev new_store : Store
new_store = record { announce = []; expiry = pos 3_600_000_000_000 }

abbrev key : StoreKey
key = record { hash = codes "blob"; format = 0; kind = 1; host = host }

abbrev slot : Slot
slot = record { key = key; value = signed }

abbrev holding : Store
holding = record { announce = slot ∷ []; expiry = pos 3_600_000_000_000 }

query-Selects_example :
    AreSorted test_api (query test_api holding complete_hosts)
    × ((out : List SignedAnnounce) × Selects test_api complete_hosts holding.announce out
        × Perm out (query test_api holding complete_hosts))
query-Selects_example = query-Selects test_api complete_hosts test_api-IsHostOrder holding

key-made : make_store_key content 1 host ≡ some key
unfolding make_store_key
key-made = refl

stored : put_announce new_store signed ≡ some holding
unfolding put_announce make_store_key put_slot
stored = refl

slot-answers : answers test_api complete_hosts slot ≡ true
unfolding answers same_content verify_signed_announce equal
slot-answers = refl

abbrev unmarshal : Bytes → Option Request
unmarshal s = some (request_announce signed)

run-AllGenuine_example : AllGenuine test_api (
    run test_api unmarshal
      (record { announce = []; expiry = pos 0 })
      (requested (codes "x") ∷ collected_at 5 ∷ []))
run-AllGenuine_example =
    run-AllGenuine test_api unmarshal (pos 0) (requested (codes "x") ∷ collected_at 5 ∷ [])
