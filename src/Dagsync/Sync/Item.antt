-- ===== src/Dagsync/Sync/Item.antt =====
-- One item of a response with its data inline, written and read.
use go_iroh_experiments.Base.{
  ◌≡◌, refl, sym, subst, true, false, List, ◌∷◌, ◌++◌, Option, none, some, ltb, arith, length, take,
  drop, Bytes, equal_self, take_append, drop_append, length-append,
}
use go_iroh_experiments.Base.Dict.{lookup, insert}
use go_iroh_experiments.Dagsync.Api.{Api, IsPostcard}
use go_iroh_experiments.Dagsync.Protocol.{
  InlineOpts, encode_header, decode_header, header_of_tag, header_bytes, inline_predicate,
}
use go_iroh_experiments.Dagsync.Tables.{Tables, put, blob_hash, extract_links, cid_matches_data}
use go_iroh_experiments.Dagsync.Sync.{
  data_header, after, write_blob, write_item, Receiver, read_data, read_item, read_one_response,
}

-- What the blobs package documents: an encoded blob reads back behind its hash of 32 bytes,
-- which a store returns too and no other content has.
pub record IsBlobs (api : Api) : Type 0 where
  pub decode-encode :
      (content h enc rest : Bytes)
      → api.encode_blob content ≡ some (h, enc)
      → api.decode_blob h (enc ++ rest) ≡ some (content, rest)
  pub add-encode :
      (content h enc : Bytes)
      → api.encode_blob content ≡ some (h, enc)
      → api.add_blob content ≡ some h
  pub hash_size : (content h enc : Bytes) → api.encode_blob content ≡ some (h, enc) → length h ≡ 32
  pub hash-injective :
      (a b h e f : Bytes)
      → api.encode_blob a ≡ some (h, e)
      → api.encode_blob b ≡ some (h, f)
      → a ≡ b

abbrev pub inline_all : InlineOpts
inline_all = record { all = true; no_raw = false; exclude = none; none_inline = false }

module _ (api : Api) (p : IsPostcard api) (law : IsBlobs api) where
  header_bytes-data : (h : Bytes) → length h ≡ 32 → header_bytes api (data_header h) ≡ some (1 ∷ h)
  unfolding header_bytes encode_header
  header_bytes-data h size = rw (p.one_byte 1 (omega arith)) (ground (arith, size))

  decode_header-data :
      (h : Bytes) → length h ≡ 32 → decode_header api (1 ∷ h) ≡ some (data_header h)
  unfolding decode_header header_of_tag
  decode_header-data h size =
      let tag : api.get_uint (1 ∷ h) ≡ some (1, h) =
        subst (λ (b : Bytes). api.get_uint (b ++ h) ≡ some (1, h)) (p.one_byte 1 (omega arith))
          (p.get-put_uint 1 h (omega arith)) in
      rw (tag, size) refl

  -- The server has the block of `c`, its tables agree with the block, and the CID matches.
  pub record Held (tables : Tables) (open_blob : Bytes → Option Bytes) (c : Bytes) : Type 0 where
    pub hash : Bytes
    pub content : Bytes
    pub enc : Bytes
    pub links : List Bytes
    pub hash_is : lookup c tables.hashes ≡ some hash
    pub links_is : lookup c tables.links ≡ some links
    pub open_is : open_blob hash ≡ some content
    pub encode_is : api.encode_blob content ≡ some (hash, enc)
    pub extract_is : extract_links api c content ≡ some links
    pub matches : cid_matches_data api c content ≡ true

  module _ (tables : Tables) (open_blob : Bytes → Option Bytes) where
    write_blob-Held :
        (c : Bytes) (k : Held tables open_blob c) → write_blob api open_blob k.hash ≡ (k.enc, none)
    unfolding write_blob
    write_blob-Held c k = rw (write_blob, k.open_is, k.encode_is, equal_self k.hash) refl

    pub write_item-Held :
        (c : Bytes) (k : Held tables open_blob c)
        → write_item api open_blob inline_all tables c ≡ ((1 ∷ k.hash) ++ k.enc, none)
    unfolding write_item write_blob inline_predicate blob_hash after
    write_item-Held c k =
        rw
          (
            write_item,
            blob_hash,
            k.hash_is,
            header_bytes-data k.hash (law.hash_size k.content k.hash k.enc k.encode_is),
            write_blob-Held c k,
          )
          refl

    -- The receiver when it has read the item of `c`.
    abbrev pub delivered : (c : Bytes) → Held tables open_blob c → Receiver → Bytes → Receiver
    delivered c k r rest = record {
      tables = put r.tables c k.hash k.links;
      blobs = insert k.hash k.content r.blobs;
      stream = rest;
    }

    read_data-Held :
        (c : Bytes) (k : Held tables open_blob c) (r : Receiver) (rest : Bytes)
        → read_data api r c k.hash (k.enc ++ rest) ≡ some (delivered c k r rest)
    unfolding read_data
    read_data-Held c k r rest =
        rw
          (
            read_data,
            law.decode-encode k.content k.hash k.enc rest k.encode_is,
            k.matches,
            law.add-encode k.content k.hash k.enc k.encode_is,
            equal_self k.hash,
            k.extract_is,
          )
          refl

    abbrev with_stream : Receiver → Bytes → Receiver
    with_stream r stream = record { tables = r.tables; blobs = r.blobs; stream = stream }

    take_hash : (h rest : Bytes) → length h ≡ 32 → take 32 (h ++ rest) ≡ h
    take_hash h rest size = subst (λ n. take n (h ++ rest) ≡ h) size (take_append h rest)

    drop_hash : (h rest : Bytes) → length h ≡ 32 → drop 32 (h ++ rest) ≡ rest
    drop_hash h rest size = subst (λ n. drop n (h ++ rest) ≡ rest) size (drop_append h rest)

    read_one_response-stream :
        (c : Bytes) (k : Held tables open_blob c) (r : Receiver) (rest : Bytes)
        → read_one_response api (with_stream r (1 ∷ (k.hash ++ (k.enc ++ rest)))) c
          ≡ some (delivered c k r rest)
    unfolding read_one_response read_item
    read_one_response-stream c k r rest =
        let size = law.hash_size k.content k.hash k.enc k.encode_is in
        let long : ltb (length (1 ∷ (k.hash ++ (k.enc ++ rest)))) 33 ≡ false =
          ground (arith, length-append k.hash (k.enc ++ rest), size) in
        rw
          (
            read_one_response,
            long,
            take_hash k.hash (k.enc ++ rest) size,
            decode_header-data k.hash size,
            drop_hash k.hash (k.enc ++ rest) size,
          )
          (read_data-Held c k (with_stream r (1 ∷ (k.hash ++ (k.enc ++ rest)))) rest)

    pub read_one_response-Held :
        (c : Bytes) (k : Held tables open_blob c) (r : Receiver) (rest : Bytes)
        → r.stream ≡ 1 ∷ (k.hash ++ (k.enc ++ rest))
        → read_one_response api r c ≡ some (delivered c k r rest)
    read_one_response-Held c k r rest s =
        subst
          (λ (t : Bytes). read_one_response api (with_stream r t) c ≡ some (delivered c k r rest))
          (sym s) (read_one_response-stream c k r rest)
