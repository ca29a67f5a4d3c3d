-- ===== src/Tlog/Operator.antt =====
-- tlogiroh/operator.go: the writer of a log, over the stores that it keeps in memory.
pub mod Stored
pub mod Extends
pub mod Log
use go_iroh_experiments.Base.{
  ℕ, Bool, true, false, ◌+◌, ◌^◌, List, [], ◌∷◌, ◌++◌, Option, none, some, ◌>>=◌, if◌then◌else◌,
  length, get_elem?, Bytes, codes,
}
use go_iroh_experiments.Go.Int.{pos}
use go_iroh_experiments.Tlog.Api
use go_iroh_experiments.Tlog.Checkpoint.{is_bad_origin, marshal_text}
use go_iroh_experiments.Tlog.Source.{Source, Entry, padded, entry_key, checkpoint_key}

-- tlog.Tile
pub record Tile : Type 0 where
  pub h : ℕ
  pub l : ℕ
  pub n : ℕ
  pub w : ℕ

-- tlog.HashReader
abbrev pub HashReader : Type 0
HashReader = List ℕ → Option (List Bytes)

-- What the operator takes from the packages blobs, docs and tlog; `Blobs` is blobs.MemStore.
pub record Stores (Blobs : Type 0) : Type 0 where
  -- MemStore.Add and blobs.ReadBlob
  pub add : Blobs → Bytes → Option (Blobs × Bytes)
  pub read : Blobs → Bytes → Option Bytes
  -- MemoryStore.Put of an entry with the present time
  pub put : List Entry → Entry → List Entry
  -- tlog.StoredHashes, tlog.NewTiles at the height 8, tlog.ReadTileData, tlog.TreeHash, Tile.Path
  pub stored_hashes : ℕ → Bytes → HashReader → Option (List Bytes)
  pub new_tiles : ℕ → ℕ → List Tile
  pub read_tile_data : Tile → HashReader → Option Bytes
  pub tree_hash : ℕ → HashReader → Option Bytes
  pub tile_path : Tile → Bytes

-- `checkpoint` is `none` for nil.
pub record Operator (Blobs : Type 0) : Type 0 where
  pub origin : Bytes
  pub signer : Bytes
  pub blobs : Blobs
  pub doc : List Entry
  pub namespace : Bytes
  pub author : Bytes
  pub hashes : List Bytes
  pub size : ℕ
  pub published : ℕ
  pub checkpoint : Option Bytes

-- `hashReader`
unfoldable pub hash_reader : List Bytes → HashReader
hash_reader hashes [] = some []
hash_reader hashes (i ∷ is) = elim (get_elem? hashes i) [
  | none ↦ none
  | some h ↦ elim (hash_reader hashes is) [ none ↦ none | some hs ↦ some (h ∷ hs) ]
]

module _ {Blobs : Type 0} (stores : Stores Blobs) where
  -- `tileKey`
  unfoldable pub tile_key : Tile → Bytes
  tile_key t = stores.tile_path (record t { w = 2 ^ t.h }) ++ (codes ".w/" ++ padded 3 t.w)

  -- `NewOperator` with the stores, the namespace and the author that it makes.
  unfoldable pub new_operator : Bytes → Bytes → Blobs → Bytes → Bytes → Option (Operator Blobs)
  new_operator origin signer blobs namespace author =
      if is_bad_origin origin
      then none
      else some (record {
        origin = origin;
        signer = signer;
        blobs = blobs;
        doc = [];
        namespace = namespace;
        author = author;
        hashes = [];
        size = 0;
        published = 0;
        checkpoint = none;
      })

  -- `putTimeline`
  unfoldable pub put_timeline : Operator Blobs → Bytes → Bytes → ℕ → Operator Blobs
  put_timeline o key hash len = record o {
    doc =
        stores.put o.doc (record {
          namespace = o.namespace;
          author = o.author;
          key = key;
          hash = hash;
          len = len;
        });
  }

  -- A blob added, and its timeline entry put.
  unfoldable pub store : Operator Blobs → Bytes → Bytes → Option (Operator Blobs)
  store o key content = elim (stores.add o.blobs content) [
    | none ↦ none
    | some (blobs, hash) ↦
        some (put_timeline (record o { blobs = blobs }) key hash (length content))
  ]

  -- `Append` and its index; `none` is any of its errors.
  unfoldable pub append : Operator Blobs → Bytes → Operator Blobs × Option ℕ
  append o entry = elim (stores.stored_hashes o.size entry (hash_reader o.hashes)) [
    | none ↦ (o, none)
    | some hashes ↦ elim (store o (entry_key o.size) entry) [
      | none ↦ (o, none)
      | some p ↦ (record p { hashes = o.hashes ++ hashes; size = o.size + 1 }, some o.size)
    ]
  ]

  -- The loop over the new tiles, and whether it ended.
  unfoldable pub publish_tiles : Operator Blobs → List Tile → Operator Blobs × Bool
  publish_tiles o [] = (o, true)
  publish_tiles o (t ∷ ts) = elim (stores.read_tile_data t (hash_reader o.hashes)) [
    | none ↦ (o, false)
    | some content ↦ elim (store o (tile_key t) content) [
      | none ↦ (o, false)
      | some p ↦ publish_tiles p ts
    ]
  ]

  -- The signed checkpoint of the tree of all entries.
  unfoldable pub signed_checkpoint : Api.Api → Operator Blobs → Option Bytes
  signed_checkpoint api o = do
    root ← stores.tree_hash o.size (hash_reader o.hashes)
    text ← marshal_text api (record { origin = o.origin; tree_n = pos o.size; tree_hash = root })
    api.sign_note (record { text = text; sigs = []; unverified_sigs = [] }) o.signer

  unfoldable pub publish_checkpoint : Api.Api → Operator Blobs → Operator Blobs × Option Bytes
  publish_checkpoint api o = elim (signed_checkpoint api o) [
    | none ↦ (o, none)
    | some msg ↦ elim (store o (checkpoint_key o.size) msg) [
      | none ↦ (o, none)
      | some p ↦ (record p { published = o.size; checkpoint = some msg }, some msg)
    ]
  ]

  -- `Publish`; `none` is any of its errors.
  unfoldable pub publish : Api.Api → Operator Blobs → Operator Blobs × Option Bytes
  publish api o =
      let (p, ended) = publish_tiles o (stores.new_tiles o.published o.size) in
      if ended then publish_checkpoint api p else (p, none)

  -- `Operator.Source`
  unfoldable pub source : Operator Blobs → Source
  source o = record {
    doc = o.doc;
    namespace = o.namespace;
    author = o.author;
    get = stores.read o.blobs;
  }
