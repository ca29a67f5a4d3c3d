-- ===== src/Dagsync/Sync/Transfer.antt =====
-- A response to a full traversal with all data inline, from the server's tables to the receiver's.
use go_iroh_experiments.Dagsync.Sync.Follow.{
  AllHeld, sent, write_cids-sent, Arrived, read_full-Reads,
}
use go_iroh_experiments.Base.{
  ℕ, suc, ◌≡◌, refl, ap, ◌∙◌, subst, List, [], ◌∷◌, ◌++◌, Option, none, some, All, Bytes,
}
use go_iroh_experiments.Base.Dict.{lookup}
use go_iroh_experiments.Dagsync.Api.{Api, IsPostcard}
use go_iroh_experiments.Dagsync.Protocol.{TraversalFilter, filter_all}
use go_iroh_experiments.Dagsync.Tables.{Tables}
use go_iroh_experiments.Dagsync.Traversal.{
  traverse, full_traversal, FullTraversalOpts, count_links, full, traversal_cids,
}
use go_iroh_experiments.Dagsync.Sync.{
  Written, write_sync_response, Receiver, read_full, read_sync_response,
}
use go_iroh_experiments.Dagsync.Sync.Item.{IsBlobs, inline_all, Held}

-- The tables agree on `c`.
abbrev pub Agrees : Bytes → Tables → Tables → Type 0
Agrees c s t = (lookup c s.hashes ≡ lookup c t.hashes) × (lookup c s.links ≡ lookup c t.links)

module _ (api : Api) (p : IsPostcard api) (law : IsBlobs api) (tables : Tables)
    (open_blob : Bytes → Option Bytes) where
  response-sent :
      (opts : FullTraversalOpts) (out : List Bytes)
      → full_traversal api opts tables ≡ some out
      → (ks : AllHeld api p law tables open_blob out)
      → write_sync_response api open_blob (full opts) inline_all tables
        ≡ (sent api p law tables open_blob out ks, none)
  unfolding write_sync_response traversal_cids
  response-sent opts out e ks =
      rw (write_sync_response, traversal_cids, e, write_cids-sent api p law tables open_blob out ks)
        refl

  traverse-unfiltered :
      (opts : FullTraversalOpts) (out : List Bytes)
      → opts.filter ≡ none
      → full_traversal api opts tables ≡ some out
      → traverse api
          (suc (count_links tables.links))
          filter_all
          tables
          opts.visited
          (opts.root ∷ [])
        ≡ some out
  unfolding full_traversal
  traverse-unfiltered opts out no_filter e =
      subst
        (λ (f : TraversalFilter).
          traverse api (suc (count_links tables.links)) f tables opts.visited (opts.root ∷ [])
          ≡ some out)
        (ap (λ (o : Option TraversalFilter). elim o [ none ↦ filter_all | some f ↦ f ]) no_filter) e

  read_sync_response-unfiltered :
      (fuel : ℕ) (opts : FullTraversalOpts) (r : Receiver)
      → opts.filter ≡ none
      → read_sync_response api fuel (full opts) r
        ≡ read_full api fuel filter_all opts.visited (opts.root ∷ []) r
  unfolding read_sync_response
  read_sync_response-unfiltered fuel opts r no_filter = rw no_filter refl

-- Where the server holds the block of each CID of a full traversal without a filter, its
-- response with all data inline has no error, and a receiver with any tables, on fuel for the
-- server's links, reads exactly the response, follows the same links, and ends with each CID's
-- hash, links and block.
pub read-write_sync_response :
    (api : Api) (p : IsPostcard api) (law : IsBlobs api) (tables : Tables)
    (open_blob : Bytes → Option Bytes) (opts : FullTraversalOpts) (out : List Bytes) (r : Receiver)
    (rest : Bytes)
    → opts.filter ≡ none
    → full_traversal api opts tables ≡ some out
    → All (Held api p law tables open_blob) out
    → r.stream ≡ (write_sync_response api open_blob (full opts) inline_all tables).0 ++ rest
    → ((write_sync_response api open_blob (full opts) inline_all tables).1 ≡ none)
      × (last : Receiver) × (read_sync_response api (suc (count_links tables.links)) (full opts) r
          ≡ some last)
      × (last.stream ≡ rest)
      × All (Arrived api p law tables open_blob last) out
read-write_sync_response api p law tables open_blob opts out r rest no_filter e ks s =
    let sends = response-sent api p law tables open_blob opts out e ks in
    let (last, reads, f) =
      read_full-Reads api p law tables open_blob (suc (count_links tables.links)) opts.visited
        (opts.root ∷ []) out (traverse-unfiltered api p law tables open_blob opts out no_filter e)
        ks r rest (s ∙ ap (λ (w : Written). w.0 ++ rest) sends) in
    (
      ap (λ (w : Written). w.1) sends,
      last,
      read_sync_response-unfiltered api p law tables open_blob (suc (count_links tables.links)) opts
            r no_filter
          ∙ reads,
      f.left,
      f.arrived,
    )
