-- ===== src/Dagsync/Api.antt =====
-- What dagsync takes from github.com/ipfs/go-cid, go-ipld-prime, go-multihash and from go-iroh's
-- blobs and postcard packages. Each function is a parameter. A CID and a blob hash are their bytes.
use go_iroh_experiments.Base.{ℕ, ◌^◌, ◌<◌, ◌≡◌, List, [], ◌∷◌, ◌++◌, Option, some, Bytes}

-- datamodel.Node, as far as `nodeLinks` looks at it.
mutual
  pub data Node : Type 0 where
    -- a link that is a cidlink.Link, or another one
    cid_link : Bytes → Node
    other_link : Node
    -- the values of a map or a list, in the order of its iterator
    values : Nodes → Node
    scalar : Node

  pub data Nodes : Type 0 where
    no_nodes : Nodes
    more_nodes : Node → Nodes → Nodes

pub record Api : Type 0 where
  -- cid.Raw, cid.DagCBOR, Cid.Type(), Cid.Hash()
  pub raw : ℕ
  pub dag_cbor : ℕ
  pub cid_type : Bytes → ℕ
  pub cid_hash : Bytes → Bytes
  -- multihash.Decode with the code and the length, and multihash.Sum
  pub multihash_decode : Bytes → Option (ℕ × ℕ)
  pub multihash_sum : Bytes → ℕ → ℕ → Option Bytes
  -- dagcbor.Decode into basicnode.Prototype__Any
  pub decode_cbor : Bytes → Option Node
  -- blobs.EncodeBlob, blobs.DecodeBlobReader with the rest of the stream, MemStore.Add
  pub encode_blob : Bytes → Option (Bytes × Bytes)
  pub decode_blob : Bytes → Bytes → Option (Bytes × Bytes)
  pub add_blob : Bytes → Option Bytes
  -- postcard.Encoder.Uint, Decoder.Uint, and a []uint64; `none` in the result is a nil slice
  pub put_uint : ℕ → Bytes
  pub get_uint : Bytes → Option (ℕ × Bytes)
  pub put_uints : List ℕ → Bytes
  pub get_uints : Bytes → Option (Option (List ℕ) × Bytes)

-- What the postcard package documents: a value reads back, and a small number is one byte.
pub record IsPostcard (a : Api) : Type 0 where
  pub get-put_uint :
      (n : ℕ) (rest : Bytes) → n < 2 ^ 64 → a.get_uint (a.put_uint n ++ rest) ≡ some (n, rest)
  pub one_byte : (n : ℕ) → n < 128 → a.put_uint n ≡ n ∷ []
  pub get-put_uints :
      (n : ℕ) (ns : List ℕ) (rest : Bytes)
      → a.get_uints (a.put_uints (n ∷ ns) ++ rest) ≡ some (some (n ∷ ns), rest)
