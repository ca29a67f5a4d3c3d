-- ===== src/Dagsync/Traversal/Paths.antt =====
-- The CIDs that links reach from a start, past those that were visited before.
use go_iroh_experiments.Base.{
  ◌≡◌, inl, inr, true, false, ◌||◌, List, [], ◌∷◌, ◌++◌, arith, Bytes, equal, equal_self,
  Bool-cases,
}
use go_iroh_experiments.Dagsync.Api.{Api}
use go_iroh_experiments.Dagsync.Tables.{Tables, has_cid}
use go_iroh_experiments.Dagsync.Traversal.{pushed}

pub has_cid-append :
    (a b : List Bytes) (c : Bytes) → has_cid (a ++ b) c ≡ (has_cid a c || has_cid b c)
unfolding has_cid
has_cid-append [] b c = ground arith
has_cid-append (x ∷ a) b c = ground (arith, has_cid-append a b c)

pub has_cid-cons :
    (x : Bytes) (a : List Bytes) (c : Bytes) → has_cid (x ∷ a) c ≡ (equal x c || has_cid a c)
unfolding has_cid
has_cid-cons x a c = ground arith

module _ (api : Api) (tables : Tables) where
  -- A path of links from the start to the CID, on which no CID was visited before.
  pub data Reaches (visited start : List Bytes) : Bytes → Type 0 where
    starts_at :
        (c : Bytes) → has_cid start c ≡ true → has_cid visited c ≡ false → Reaches visited start c
    follows :
        (p c : Bytes)
        → Reaches visited start p
        → has_cid (pushed api tables p) c ≡ true
        → has_cid visited c ≡ false
        → Reaches visited start c

  pub Reaches-push :
      (visited stack : List Bytes) (c x : Bytes)
      → Reaches visited stack x
      → Reaches visited (c ∷ stack) x
  Reaches-push visited stack c x (starts_at _ s v) =
      starts_at x (ground (arith, has_cid-cons c stack x)) v
  Reaches-push visited stack c x (follows p _ r l v) =
      follows p x (Reaches-push visited stack c p r) l v

  pub Reaches-visit :
      (visited stack : List Bytes) (c x : Bytes)
      → has_cid visited c ≡ false
      → Reaches (c ∷ visited) (pushed api tables c ++ stack) x
      → Reaches visited (c ∷ stack) x
  Reaches-visit visited stack c x h (starts_at _ s v) =
      let v2 : has_cid visited x ≡ false = ground (arith, has_cid-cons c visited x) in
      elim (Bool-cases (has_cid (pushed api tables c) x)) [
        | inl linked ↦
            follows c x (starts_at c (ground (arith, has_cid-cons c stack c, equal_self c)) h)
              linked v2
        | inr other ↦
            starts_at x
              (ground (arith, has_cid-append (pushed api tables c) stack x, has_cid-cons c stack x))
              v2
      ]
  Reaches-visit visited stack c x h (follows p _ r l v) =
      follows p x (Reaches-visit visited stack c p h r) l (ground (arith, has_cid-cons c visited x))
