-- ===== src/Dagsync/Tests.antt =====
-- The dagsync theorems at a graph of two blocks, with small functions in place of the packages.
use go_iroh_experiments.Base.{
  ℕ, suc, ◌<◌, ◌≡◌, refl, ap, ap₂, sym, subst, ◌∙◌, false, List, [], ◌∷◌, ◌++◌, Option, none, some,
  arith, length, take, drop, take_append, drop_append, replicate, All, Bytes, equal, some-injective,
}
use go_iroh_experiments.Base.Dict.{lookup}
use go_iroh_experiments.Go.Uvarint.{uvarint, put_uvarint, get_uvarint, get-uvarint}
use go_iroh_experiments.Dagsync.Api.{Api, IsPostcard, Node, values, cid_link, no_nodes, more_nodes}
use go_iroh_experiments.Dagsync.Protocol.{TraversalFilter, encode_filter, include_cid}
use go_iroh_experiments.Dagsync.Tables.{
  Tables, new_tables, extract_links, cid_matches_data, walk, walk_all, append_unique_cid, has_cid,
}
use go_iroh_experiments.Dagsync.Traversal.{
  FullTraversalOpts, full, full_traversal, count_links, traverse, pushed,
}
use go_iroh_experiments.Dagsync.Traversal.Explored.{Selects, full_traversal-Selects}
use go_iroh_experiments.Dagsync.Sync.{Receiver, write_sync_response, read_sync_response}
use go_iroh_experiments.Dagsync.Sync.Item.{IsBlobs, Held, inline_all}
use go_iroh_experiments.Dagsync.Sync.Follow.{Arrived}
use go_iroh_experiments.Dagsync.Sync.Transfer.{read-write_sync_response}

-- The blocks that the small store takes have one byte.
abbrev hash_of : ℕ → Bytes
hash_of x = x ∷ replicate 31 0

abbrev encode_block : Bytes → Option (Bytes × Bytes)
encode_block (x ∷ []) = some (hash_of x, x ∷ [])
encode_block _ = none

abbrev decode_block : Bytes → Option (Bytes × Bytes)
decode_block [] = none
decode_block (x ∷ rest) = some (x ∷ [], rest)

abbrev add_block : Bytes → Option Bytes
add_block (x ∷ []) = some (hash_of x)
add_block _ = none

abbrev first_byte : Bytes → ℕ
first_byte [] = 0
first_byte (x ∷ xs) = x

abbrev behind_first : Bytes → Bytes
behind_first [] = []
behind_first (x ∷ xs) = xs

-- A block links to the raw block of the next byte.
abbrev next_block : Bytes → Node
next_block s = values (more_nodes (cid_link (85 ∷ suc (first_byte s) ∷ [])) no_nodes)

abbrev get_list : Bytes → Option (Option (List ℕ) × Bytes)
get_list [] = none
get_list (n ∷ s) = some (some (take n s), drop n s)

abbrev test_api : Api
test_api = record {
  raw = 85;
  dag_cbor = 113;
  cid_type = first_byte;
  cid_hash = behind_first;
  multihash_decode = λ h. some (0, length h);
  multihash_sum = λ content code len. some content;
  decode_cbor = λ s. some (next_block s);
  encode_blob = encode_block;
  decode_blob = λ h s. decode_block s;
  add_blob = add_block;
  put_uint = uvarint;
  get_uint = get_uvarint;
  put_uints = λ ns. length ns ∷ ns;
  get_uints = get_list;
}

one_byte : (n : ℕ) → n < 128 → uvarint n ≡ n ∷ []
unfolding uvarint put_uvarint
one_byte n h = ground arith

list-read :
    (ns : List ℕ) (rest : Bytes) → get_list ((length ns ∷ ns) ++ rest) ≡ some (some ns, rest)
list-read ns rest =
    ap₂ (λ (a b : Bytes). some (some a, b)) (take_append ns rest) (drop_append ns rest)

test_api-IsPostcard : IsPostcard test_api
test_api-IsPostcard = record {
  get-put_uint = get-uvarint;
  one_byte = one_byte;
  get-put_uints = λ n ns rest. list-read (n ∷ ns) rest;
}

block-read :
    (content h enc rest : Bytes)
    → encode_block content ≡ some (h, enc)
    → decode_block (enc ++ rest) ≡ some (content, rest)
block-read [] h enc rest e = absurd (ground arith)
block-read (x ∷ []) h enc rest e =
    let enc_is : x ∷ [] ≡ enc = ap (λ (p : Bytes × Bytes). p.1) (some-injective e) in
    subst (λ (t : Bytes). decode_block (t ++ rest) ≡ some (x ∷ [], rest)) enc_is refl
block-read (x ∷ y ∷ zs) h enc rest e = absurd (ground arith)

block-added :
    (content h enc : Bytes) → encode_block content ≡ some (h, enc) → add_block content ≡ some h
block-added [] h enc e = absurd (ground arith)
block-added (x ∷ []) h enc e = ap some (ap (λ (p : Bytes × Bytes). p.0) (some-injective e))
block-added (x ∷ y ∷ zs) h enc e = absurd (ground arith)

block-size : (content h enc : Bytes) → encode_block content ≡ some (h, enc) → length h ≡ 32
block-size [] h enc e = absurd (ground arith)
block-size (x ∷ []) h enc e = sym (ap (λ (p : Bytes × Bytes). length p.0) (some-injective e))
block-size (x ∷ y ∷ zs) h enc e = absurd (ground arith)

-- The content is the hash's first byte.
block-content :
    (content h enc : Bytes) → encode_block content ≡ some (h, enc) → content ≡ first_byte h ∷ []
block-content [] h enc e = absurd (ground arith)
block-content (x ∷ []) h enc e = ap (λ (p : Bytes × Bytes). first_byte p.0 ∷ []) (some-injective e)
block-content (x ∷ y ∷ zs) h enc e = absurd (ground arith)

test_api-IsBlobs : IsBlobs test_api
test_api-IsBlobs = record {
  decode-encode = block-read;
  add-encode = block-added;
  hash_size = block-size;
  hash-injective = λ a b h e f ea eb. block-content a h e ea ∙ sym (block-content b h f eb);
}

abbrev root : Bytes
root = 113 ∷ 1 ∷ []

abbrev leaf : Bytes
leaf = 85 ∷ 2 ∷ []

abbrev served : Tables
served = record {
  hashes = (root, hash_of 1) ∷ (leaf, hash_of 2) ∷ [];
  links = (root, leaf ∷ []) ∷ (leaf, []) ∷ [];
  rev_links = [];
}

abbrev opts : FullTraversalOpts
opts = record { root = root; visited = []; filter = none }

abbrev open_blob : Bytes → Option Bytes
open_blob h = some (first_byte h ∷ [])

full_traversal-Selects_example :
    (out : List Bytes) × (full_traversal test_api opts served ≡ some out)
    × Selects test_api opts served out
full_traversal-Selects_example = full_traversal-Selects test_api opts served

traversed : full_traversal test_api opts served ≡ some (root ∷ leaf ∷ [])
unfolding full_traversal count_links traverse pushed has_cid include_cid lookup equal
traversed = refl

root-Held : Held test_api test_api-IsPostcard test_api-IsBlobs served open_blob root
unfolding lookup extract_links cid_matches_data walk walk_all append_unique_cid has_cid equal
root-Held = record {
  hash = hash_of 1;
  content = 1 ∷ [];
  enc = 1 ∷ [];
  links = leaf ∷ [];
  hash_is = refl;
  links_is = refl;
  open_is = refl;
  encode_is = refl;
  extract_is = refl;
  matches = refl;
}

leaf-Held : Held test_api test_api-IsPostcard test_api-IsBlobs served open_blob leaf
unfolding lookup extract_links cid_matches_data equal
leaf-Held = record {
  hash = hash_of 2;
  content = 2 ∷ [];
  enc = 2 ∷ [];
  links = [];
  hash_is = refl;
  links_is = refl;
  open_is = refl;
  encode_is = refl;
  extract_is = refl;
  matches = refl;
}

abbrev receiver : Receiver
receiver = record {
  tables = new_tables;
  blobs = [];
  stream = (write_sync_response test_api open_blob (full opts) inline_all served).0 ++ [];
}

read-write_sync_response_example :
    ((write_sync_response test_api open_blob (full opts) inline_all served).1 ≡ none)
    × (last : Receiver) × (read_sync_response test_api
          (suc (count_links served.links))
          (full opts)
          receiver
        ≡ some last)
    × (last.stream ≡ [])
    × All
        (Arrived test_api test_api-IsPostcard test_api-IsBlobs served open_blob last)
        (root ∷ leaf ∷ [])
read-write_sync_response_example =
    read-write_sync_response test_api test_api-IsPostcard test_api-IsBlobs served open_blob opts
      (root ∷ leaf ∷ []) receiver [] refl traversed (root-Held, (leaf-Held, tt)) refl

abbrev no_cbor : TraversalFilter
no_cbor = record { all = false; no_raw = false; just_raw = false; exclude = some (113 ∷ []) }

no_cbor-encodes : encode_filter test_api no_cbor ≡ some (uvarint 3 ++ (1 ∷ 113 ∷ []))
unfolding encode_filter
no_cbor-encodes = refl
