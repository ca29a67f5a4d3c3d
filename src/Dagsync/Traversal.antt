-- ===== src/Dagsync/Traversal.antt =====
-- dagsync/traversal.go: the CIDs of a traversal, in their order.
pub mod Steps
pub mod Paths
pub mod Explored
use go_iroh_experiments.Base.{
  ℕ, zero, suc, ◌+◌, Bool, true, false, List, [], ◌∷◌, ◌++◌, Option, none, some, ◌==◌,
  if◌then◌else◌, length, Bytes,
}
use go_iroh_experiments.Base.Dict.{Map, lookup}
use go_iroh_experiments.Dagsync.Api.{Api}
use go_iroh_experiments.Dagsync.Protocol.{TraversalFilter, filter_all, include_cid}
use go_iroh_experiments.Dagsync.Tables.{Tables, has_cid}

pub record FullTraversalOpts : Type 0 where
  pub root : Bytes
  pub visited : List Bytes
  pub filter : Option TraversalFilter

-- A value holds one of the two, as on the wire.
pub data TraversalOpts : Type 0 where
  sequence : List Bytes → TraversalOpts
  full : FullTraversalOpts → TraversalOpts
  neither : TraversalOpts

-- The sum of the lengths of all link lists.
unfoldable pub count_links : Map (List Bytes) → ℕ
count_links [] = 0
count_links ((k, cids) ∷ m) = length cids + count_links m

abbrev pub filter_of : FullTraversalOpts → TraversalFilter
filter_of opts = elim opts.filter [ none ↦ filter_all | some f ↦ f ]

module _ (api : Api) where
  -- What the loop pushes for `c`: nothing if it is raw or unknown. The first link is on top.
  unfoldable pub pushed : Tables → Bytes → List Bytes
  pushed tables c =
      if api.cid_type c == api.raw
      then []
      else elim (lookup c tables.links) [ none ↦ [] | some cids ↦ cids ]

  -- The loop of `fullTraversal`; the head of the stack is its top.
  unfoldable pub traverse :
      ℕ → TraversalFilter → Tables → List Bytes → List Bytes → Option (List Bytes)
  traverse fuel filter tables visited [] = some []
  traverse zero filter tables visited (c ∷ stack) = none
  traverse (suc fuel) filter tables visited (c ∷ stack) = elim (has_cid visited c) [
    | true ↦ traverse fuel filter tables visited stack
    | false ↦ elim (traverse fuel filter tables (c ∷ visited) (pushed tables c ++ stack)) [
      | none ↦ none
      | some out ↦ some (if include_cid api filter c then c ∷ out else out)
    ]
  ]

  -- `fullTraversal`, on one step more than there are links.
  unfoldable pub full_traversal : FullTraversalOpts → Tables → Option (List Bytes)
  full_traversal opts tables =
      traverse (suc (count_links tables.links)) (filter_of opts) tables opts.visited
        (opts.root ∷ [])

  -- `traversalCIDs`; `none` is the error of an empty traversal.
  unfoldable pub traversal_cids : TraversalOpts → Tables → Option (List Bytes)
  traversal_cids (sequence cids) tables = some cids
  traversal_cids (full opts) tables = full_traversal opts tables
  traversal_cids neither tables = none
