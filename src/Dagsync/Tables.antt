-- ===== src/Dagsync/Tables.antt =====
-- dagsync/tables.go: the blob hash and the links of each CID.
pub mod Index
use go_iroh_experiments.Base.{
  Bool, true, false, List, [], ◌∷◌, ◌++◌, Option, none, some, ◌==◌, if◌then◌else◌, ◌>>=◌, Bytes,
  equal,
}
use go_iroh_experiments.Base.Dict.{Map, lookup, insert}
use go_iroh_experiments.Dagsync.Api.{
  Api, Node, cid_link, other_link, values, scalar, Nodes, no_nodes, more_nodes,
}

pub record Tables : Type 0 where
  pub hashes : Map Bytes
  pub links : Map (List Bytes)
  pub rev_links : Map (List Bytes)

-- `NewTables`
abbrev pub new_tables : Tables
new_tables = record { hashes = []; links = []; rev_links = [] }

-- Does `equalCID` hold for an item?
unfoldable pub has_cid : List Bytes → Bytes → Bool
has_cid [] c = false
has_cid (old ∷ cids) c = if equal old c then true else has_cid cids c

unfoldable pub append_unique_cid : List Bytes → Bytes → List Bytes
append_unique_cid cids c = if has_cid cids c then cids else cids ++ c ∷ []

-- A missing list reads as nil.
unfoldable pub list_at : Bytes → Map (List Bytes) → List Bytes
list_at k m = elim (lookup k m) [ none ↦ [] | some cids ↦ cids ]

unfoldable pub put : Tables → Bytes → Bytes → List Bytes → Tables
put t c hash links = record {
  hashes = insert c hash t.hashes;
  links = insert c links t.links;
  rev_links = insert hash (append_unique_cid (list_at hash t.rev_links) c) t.rev_links;
}

unfoldable pub blob_hash : Tables → Bytes → Option Bytes
blob_hash t c = lookup c t.hashes

unfoldable pub cids_for_hash : Tables → Bytes → List Bytes
cids_for_hash t hash = list_at hash t.rev_links

-- `walk` of `nodeLinks`, with the links so far.
unfoldable mutual
  pub walk : Node → List Bytes → List Bytes
  walk (cid_link c) out = append_unique_cid out c
  walk other_link out = out
  walk (values ns) out = walk_all ns out
  walk scalar out = out

  pub walk_all : Nodes → List Bytes → List Bytes
  walk_all no_nodes out = out
  walk_all (more_nodes n ns) out = walk_all ns (walk n out)

module _ (api : Api) where
  unfoldable pub extract_links : Bytes → Bytes → Option (List Bytes)
  extract_links c content =
      if api.cid_type c == api.raw
      then some []
      else if api.cid_type c == api.dag_cbor
      then elim (api.decode_cbor content) [ none ↦ none | some n ↦ some (walk n []) ]
      else some []

  -- `cidMatchesData`
  unfoldable pub cid_matches_data : Bytes → Bytes → Bool
  cid_matches_data c content = elim (api.multihash_decode (api.cid_hash c)) [
    | none ↦ false
    | some (code, len) ↦ elim (api.multihash_sum content code len) [
      | none ↦ false
      | some got ↦ equal got (api.cid_hash c)
    ]
  ]

  -- `ImportBytes`: the tables and the blobs behind it, and the hash if there is no error. The
  -- blob stays where its links cannot be read.
  unfoldable pub import_bytes :
      Tables → Map Bytes → Bytes → Bytes → Tables × Map Bytes × Option Bytes
  import_bytes t blobs c content = elim (api.add_blob content) [
    | none ↦ (t, blobs, none)
    | some hash ↦ elim (extract_links c content) [
      | none ↦ (t, insert hash content blobs, none)
      | some links ↦ (put t c hash links, insert hash content blobs, some hash)
    ]
  ]
