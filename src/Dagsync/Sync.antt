-- ===== src/Dagsync/Sync.antt =====
-- dagsync/sync.go: the response to a request, and how its receiver reads it.
pub mod Item
pub mod Follow
pub mod Transfer
use go_iroh_experiments.Base.{
  ℕ, zero, suc, ◌+◌, Bool, true, false, not, List, [], ◌∷◌, ◌++◌, Option, none, some, ltb, ◌==◌,
  if◌then◌else◌, length, take, drop, Bytes, equal,
}
use go_iroh_experiments.Base.Dict.{Map, insert}
use go_iroh_experiments.Dagsync.Api.{Api}
use go_iroh_experiments.Dagsync.Protocol.{
  TraversalFilter, InlineOpts, SyncResponseHeader, decode_header, header_bytes, inline_predicate,
  include_cid,
}
use go_iroh_experiments.Dagsync.Tables.{
  Tables, has_cid, put, blob_hash, extract_links, cid_matches_data,
}
use go_iroh_experiments.Dagsync.Traversal.{
  TraversalOpts, sequence, full, neither, FullTraversalOpts, filter_of, pushed, traversal_cids,
}

abbrev pub hash_header : Bytes → SyncResponseHeader
hash_header h = record { hash = some h; data_hash = none }

abbrev pub data_header : Bytes → SyncResponseHeader
data_header h = record { hash = none; data_hash = some h }

pub data WriteError : Type 0 where
  empty_traversal : WriteError
  no_blob_hash : WriteError
  bad_header : WriteError
  no_blob_data : WriteError
  not_encoded : WriteError
  hash_mismatch : WriteError

-- The bytes that were written, and the error that ended it, if any.
abbrev pub Written : Type 0
Written = Bytes × Option WriteError

unfoldable pub after : Bytes → Written → Written
after b (w, e) = (b ++ w, e)

-- An error ends the response.
unfoldable pub then_write : Written → Written → Written
then_write (b, some e) w = (b, some e)
then_write (b, none) w = after b w

module _ (api : Api) where
  -- `open_blob` is `Store.Open` with `readEntry`; it fails on a blob that is not complete.
  unfoldable pub write_blob : (Bytes → Option Bytes) → Bytes → Written
  write_blob open_blob hash = elim (open_blob hash) [
    | none ↦ ([], some no_blob_data)
    | some content ↦ elim (api.encode_blob content) [
      | none ↦ ([], some not_encoded)
      | some (got, enc) ↦ if equal got hash then (enc, none) else ([], some hash_mismatch)
    ]
  ]

  -- One round of the loop of `WriteSyncResponse`
  unfoldable pub write_item : (Bytes → Option Bytes) → InlineOpts → Tables → Bytes → Written
  write_item open_blob inline tables c = elim (blob_hash tables c) [
    | none ↦ ([], some no_blob_hash)
    | some hash ↦
        if inline_predicate api inline c
        then elim (header_bytes api (data_header hash)) [
          | none ↦ ([], some bad_header)
          | some b ↦ after b (write_blob open_blob hash)
        ]
        else elim (header_bytes api (hash_header hash)) [
          | none ↦ ([], some bad_header)
          | some b ↦ (b, none)
        ]
  ]

  unfoldable pub write_cids : (Bytes → Option Bytes) → InlineOpts → Tables → List Bytes → Written
  write_cids open_blob inline tables [] = ([], none)
  write_cids open_blob inline tables (c ∷ cids) =
      then_write (write_item open_blob inline tables c) (write_cids open_blob inline tables cids)

  unfoldable pub write_sync_response :
      (Bytes → Option Bytes) → TraversalOpts → InlineOpts → Tables → Written
  write_sync_response open_blob traversal inline tables =
      elim (traversal_cids api traversal tables) [
        | none ↦ ([], some empty_traversal)
        | some cids ↦ write_cids open_blob inline tables cids
      ]

-- The reader's functions return `none` for any error, which ends the transfer; what a failed call
-- leaves in the receiver is not modelled.

-- The receiver: its tables, its blobs, and the bytes that are left on the stream.
pub record Receiver : Type 0 where
  pub tables : Tables
  pub blobs : Map Bytes
  pub stream : Bytes

module _ (api : Api) where
  unfoldable pub read_data : Receiver → Bytes → Bytes → Bytes → Option Receiver
  read_data r c hash stream = elim (api.decode_blob hash stream) [
    | none ↦ none
    | some (content, rest) ↦
        if cid_matches_data api c content
        then elim (api.add_blob content) [
          | none ↦ none
          | some got ↦
              if equal got hash
              then elim (extract_links api c content) [
                | none ↦ none
                | some links ↦ some (record {
                  tables = put r.tables c got links;
                  blobs = insert got content r.blobs;
                  stream = rest;
                })
              ]
              else none
        ]
        else none
  ]

  unfoldable pub read_item : Receiver → Bytes → SyncResponseHeader → Bytes → Option Receiver
  read_item r c header stream = elim header.hash [
    | some hash ↦
        some (record { tables = put r.tables c hash []; blobs = r.blobs; stream = stream })
    | none ↦ elim header.data_hash [ none ↦ none | some hash ↦ read_data r c hash stream ]
  ]

  -- `readOneResponse`; the end of the stream is no error.
  unfoldable pub read_one_response : Receiver → Bytes → Option Receiver
  read_one_response r c = elim r.stream [
    | [] ↦ some r
    | b ∷ bs ↦
        if ltb (length (b ∷ bs)) 33 then none else elim (decode_header api (take 33 (b ∷ bs))) [
          | none ↦ none
          | some header ↦ read_item r c header (drop 33 (b ∷ bs))
        ]
  ]

  -- `ReadSyncResponse` on a sequence
  unfoldable pub read_cids : Receiver → List Bytes → Option Receiver
  read_cids r [] = some r
  read_cids r (c ∷ cids) = elim (read_one_response r c) [
    | none ↦ none
    | some r2 ↦ read_cids r2 cids
  ]

  -- The loop of `readFullSyncResponse`; it follows the links that it has just received.
  unfoldable pub read_full :
      ℕ → TraversalFilter → List Bytes → List Bytes → Receiver → Option Receiver
  read_full fuel filter visited [] r = some r
  read_full zero filter visited (c ∷ stack) r = none
  read_full (suc fuel) filter visited (c ∷ stack) r = elim (has_cid visited c) [
    | true ↦ read_full fuel filter visited stack r
    | false ↦ elim (if include_cid api filter c then read_one_response r c else some r) [
      | none ↦ none
      | some r2 ↦ read_full fuel filter (c ∷ visited) (pushed api r2.tables c ++ stack) r2
    ]
  ]

  -- `ReadSyncResponse`; `fuel` is for the loop of a full traversal.
  unfoldable pub read_sync_response : ℕ → TraversalOpts → Receiver → Option Receiver
  read_sync_response fuel (full opts) r =
      read_full fuel (filter_of opts) opts.visited (opts.root ∷ []) r
  read_sync_response fuel (sequence cids) r = read_cids r cids
  read_sync_response fuel neither r = none
