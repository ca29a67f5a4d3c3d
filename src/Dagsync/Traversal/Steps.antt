-- ===== src/Dagsync/Traversal/Steps.antt =====
-- The loop of `fullTraversal` ends: it pops each link list of the tables once at most.
use go_iroh_experiments.Base.{
  ℕ, suc, ◌+◌, ◌≤◌, ◌≡◌, refl, ap, ◌∙◌, inl, inr, true, false, List, [], ◌∷◌, ◌++◌, some, arith,
  if◌then◌else◌, length, Bytes, equal, equal_iff, Bool-cases, Option-cases,
}
use go_iroh_experiments.Base.Dict.{Map, lookup}
use go_iroh_experiments.Dagsync.Api.{Api}
use go_iroh_experiments.Dagsync.Protocol.{TraversalFilter, include_cid}
use go_iroh_experiments.Dagsync.Tables.{Tables, has_cid}
use go_iroh_experiments.Dagsync.Traversal.{count_links, pushed, traverse}

-- The links of the CIDs that are not visited.
unfoldable pub count_fresh : List Bytes → Map (List Bytes) → ℕ
count_fresh visited [] = 0
count_fresh visited ((k, cids) ∷ m) =
    (if has_cid visited k then 0 else length cids) + count_fresh visited m

pub count_fresh-links :
    (visited : List Bytes) (m : Map (List Bytes)) → count_fresh visited m ≤ count_links m
unfolding count_fresh count_links
count_fresh-links visited [] = omega arith
count_fresh-links visited ((k, cids) ∷ m) = ground (arith, count_fresh-links visited m)

count_fresh-visit :
    (visited : List Bytes) (c : Bytes) (m : Map (List Bytes))
    → count_fresh (c ∷ visited) m ≤ count_fresh visited m
unfolding count_fresh has_cid
count_fresh-visit visited c [] = omega arith
count_fresh-visit visited c ((k, cids) ∷ m) = ground (arith, count_fresh-visit visited c m)

-- A first visit takes the links of its CID away.
count_fresh-lookup :
    (visited : List Bytes) (c : Bytes) (m : Map (List Bytes)) (cids : List Bytes)
    → has_cid visited c ≡ false
    → lookup c m ≡ some cids
    → count_fresh (c ∷ visited) m + length cids ≤ count_fresh visited m
unfolding count_fresh has_cid lookup
count_fresh-lookup visited c [] cids fresh h = absurd (ground arith)
count_fresh-lookup visited c ((k, ds) ∷ m) cids fresh h = elim (Bool-cases (equal k c)) [
  | inl same ↦
      let k_is = (equal_iff k c).0 same in
      ground
        (arith, count_fresh-visit visited c m, equal_iff c k, ap (has_cid visited) k_is ∙ fresh)
  | inr other ↦
      ground (arith, equal_iff c k, equal_iff k c, count_fresh-lookup visited c m cids fresh)
]

-- What the loop pushes is no more than what its visit takes away.
pub count_fresh-pushed :
    (api : Api) (tables : Tables) (visited : List Bytes) (c : Bytes)
    → has_cid visited c ≡ false
    → count_fresh (c ∷ visited) tables.links + length (pushed api tables c)
      ≤ count_fresh visited tables.links
unfolding pushed
count_fresh-pushed api tables visited c fresh = elim (Option-cases (lookup c tables.links)) [
  | inl e ↦ rw e (ground (arith, count_fresh-visit visited c tables.links))
  | inr (cids, e) ↦ rw e (
      ground (
        arith,
        count_fresh-visit visited c tables.links,
        count_fresh-lookup visited c tables.links cids fresh e,
      ))
]

module _ (api : Api) (filter : TraversalFilter) (tables : Tables) where
  pub traverse-visited :
      (fuel : ℕ) (visited : List Bytes) (c : Bytes) (stack : List Bytes)
      → has_cid visited c ≡ true
      → traverse api (suc fuel) filter tables visited (c ∷ stack)
        ≡ traverse api fuel filter tables visited stack
  unfolding traverse
  traverse-visited fuel visited c stack old = rw (old, traverse) refl

  pub traverse-fresh :
      (fuel : ℕ) (visited : List Bytes) (c : Bytes) (stack out : List Bytes)
      → has_cid visited c ≡ false
      → traverse api fuel filter tables (c ∷ visited) (pushed api tables c ++ stack) ≡ some out
      → traverse api (suc fuel) filter tables visited (c ∷ stack)
        ≡ some (if include_cid api filter c then c ∷ out else out)
  unfolding traverse
  traverse-fresh fuel visited c stack out fresh e = rw (fresh, traverse, e) refl
