-- ===== src/Dagsync/Traversal/Explored.antt =====
-- What a full traversal returns, against the CIDs that the links reach.
use go_iroh_experiments.Base.{
  ℕ, zero, suc, ◌+◌, ◌≤◌, ◌≡◌, refl, ap, ◌∙◌, sym, subst, ◌↔◌, ◌⊎◌, inl, inr, true, false, ◌&&◌,
  length, length-append, List, [], ◌∷◌, ◌++◌, some, arith, if◌then◌else◌, Bytes, equal, equal_iff,
  equal_self, Bool-cases,
}
use go_iroh_experiments.Dagsync.Api.{Api}
use go_iroh_experiments.Dagsync.Protocol.{TraversalFilter, include_cid}
use go_iroh_experiments.Dagsync.Tables.Index.{AreUnique}
use go_iroh_experiments.Dagsync.Tables.{Tables, has_cid}
use go_iroh_experiments.Dagsync.Traversal.{
  FullTraversalOpts, filter_of, pushed, traverse, full_traversal, count_links,
}
use go_iroh_experiments.Dagsync.Traversal.Steps.{
  traverse-visited, traverse-fresh, count_fresh, count_fresh-links, count_fresh-pushed,
}
use go_iroh_experiments.Dagsync.Traversal.Paths.{
  has_cid-append, has_cid-cons, Reaches, starts_at, follows, Reaches-push, Reaches-visit,
}

module _ (api : Api) (filter : TraversalFilter) (tables : Tables) where
  unfoldable select : List Bytes → List Bytes
  select [] = []
  select (c ∷ cids) = let rest = select cids in if include_cid api filter c then c ∷ rest else rest

  -- The loop's result for a stack: the CIDs it saw, and what it put out.
  record Explored (visited stack out : List Bytes) : Type 0 where
    seen : List Bytes
    out_is : out ≡ select seen
    fresh : (c : Bytes) → has_cid seen c ≡ true → has_cid visited c ≡ false
    unique : AreUnique seen
    started :
        (c : Bytes) → has_cid stack c ≡ true → has_cid visited c ≡ false → has_cid seen c ≡ true
    closed :
        (p c : Bytes)
        → has_cid seen p ≡ true
        → has_cid (pushed api tables p) c ≡ true
        → has_cid visited c ≡ false
        → has_cid seen c ≡ true
    reached : (c : Bytes) → has_cid seen c ≡ true → Reaches api tables visited stack c

  Explored-visited :
      (visited stack out : List Bytes) (c : Bytes)
      → has_cid visited c ≡ true
      → Explored visited stack out
      → Explored visited (c ∷ stack) out
  Explored-visited visited stack out c old r = record {
    seen = r.seen;
    out_is = r.out_is;
    fresh = r.fresh;
    unique = r.unique;
    started = λ x s v. r.started x (ground (arith, has_cid-cons c stack x, equal_iff c x)) v;
    closed = r.closed;
    reached = λ x s. Reaches-push api tables visited stack c x (r.reached x s);
  }

  -- Is `x` one of `c ∷ cids`?
  has_cid-cases :
      (c x : Bytes) (cids : List Bytes)
      → has_cid (c ∷ cids) x ≡ true
      → (c ≡ x) ⊎ (has_cid cids x ≡ true)
  has_cid-cases c x cids h = elim (Bool-cases (equal c x)) [
    | inl same ↦ inl ((equal_iff c x).0 same)
    | inr other ↦ inr (ground (arith, has_cid-cons c cids x))
  ]

  Explored-fresh :
      (visited stack out : List Bytes) (c : Bytes)
      → has_cid visited c ≡ false
      → Explored (c ∷ visited) (pushed api tables c ++ stack) out
      → Explored visited (c ∷ stack) (if include_cid api filter c then c ∷ out else out)
  unfolding select
  Explored-fresh visited stack out c new r = record {
    seen = c ∷ r.seen;
    out_is = ap (λ (o : List Bytes). if include_cid api filter c then c ∷ o else o) r.out_is;
    fresh = λ x s. elim (has_cid-cases c x r.seen s) [
      | inl same ↦ subst (λ y. has_cid visited y ≡ false) same new
      | inr later ↦ ground (arith, r.fresh x later, has_cid-cons c visited x)
    ];
    unique = (not_seen, r.unique);
    started = λ x s v. elim (has_cid-cases c x stack s) [
      | inl same ↦ here x same
      | inr later ↦ there x v (ground (arith, has_cid-append (pushed api tables c) stack x))
    ];
    closed = λ p x s l v. elim (has_cid-cases c p r.seen s) [
      | inl same ↦ there x v (
          ground (
            arith,
            has_cid-append (pushed api tables c) stack x,
            subst (λ y. has_cid (pushed api tables y) x ≡ true) (sym same) l,
          ))
      | inr later ↦ elim (Bool-cases (equal c x)) [
        | inl same ↦ ground (arith, has_cid-cons c r.seen x)
        | inr other ↦ ground (
          arith,
          has_cid-cons c r.seen x,
          r.closed p x later l (ground (arith, has_cid-cons c visited x)),
        )
      ]
    ];
    reached = λ x s. elim (has_cid-cases c x r.seen s) [
      | inl same ↦
          subst (λ y. Reaches api tables visited (c ∷ stack) y) same
            (starts_at c (ground (arith, has_cid-cons c stack c, equal_self c)) new)
      | inr later ↦ Reaches-visit api tables visited stack c x new (r.reached x later)
    ];
  }
    where
      not_seen : has_cid r.seen c ≡ false
      not_seen = elim (Bool-cases (has_cid r.seen c)) [
        | inl s ↦ absurd (ground (arith, r.fresh c s, has_cid-cons c visited c, equal_self c))
        | inr n ↦ n
      ]

      here : (x : Bytes) → c ≡ x → has_cid (c ∷ r.seen) x ≡ true
      here x same = ground (arith, has_cid-cons c r.seen x, (equal_iff c x).1 same)

      there :
          (x : Bytes)
          → has_cid visited x ≡ false
          → has_cid (pushed api tables c ++ stack) x ≡ true
          → has_cid (c ∷ r.seen) x ≡ true
      there x v s = elim (Bool-cases (equal c x)) [
        | inl same ↦ ground (arith, has_cid-cons c r.seen x)
        | inr other ↦ ground (
          arith,
          has_cid-cons c r.seen x,
          r.started x s (ground (arith, has_cid-cons c visited x)),
        )
      ]

  Explored-done : (visited : List Bytes) → Explored visited [] []
  unfolding select has_cid
  Explored-done visited = record {
    seen = [];
    out_is = refl;
    fresh = λ c s. absurd (ground arith);
    unique = tt;
    started = λ c s v. absurd (ground arith);
    closed = λ p c s l v. absurd (ground arith);
    reached = λ c s. absurd (ground arith);
  }

  -- The loop on enough fuel.
  abbrev Explores : ℕ → List Bytes → List Bytes → Type 0
  Explores fuel visited stack =
      (out : List Bytes) × (traverse api fuel filter tables visited stack ≡ some out)
      × Explored visited stack out

  traverse-Explores :
      (fuel : ℕ) (visited stack : List Bytes)
      → count_fresh visited tables.links + length stack ≤ fuel
      → Explores fuel visited stack
  traverse-Explores fuel visited [] h = ([], unfold traverse in refl, Explored-done visited)
  traverse-Explores zero visited (c ∷ stack) h = absurd (omega arith)
  traverse-Explores (suc fuel) visited (c ∷ stack) h = elim (Bool-cases (has_cid visited c)) [
    | inl old ↦
        let (out, e, r) = traverse-Explores fuel visited stack (omega arith) in
        (
          out,
          traverse-visited api filter tables fuel visited c stack old ∙ e,
          Explored-visited visited stack out c old r,
        )
    | inr new ↦
        let (out, e, r) = traverse-Explores fuel (c ∷ visited) (pushed api tables c ++ stack) (
          omega (
            arith,
            count_fresh-pushed api tables visited c new,
            length-append (pushed api tables c) stack,
          )) in
        (
          (if include_cid api filter c then c ∷ out else out),
          traverse-fresh api filter tables fuel visited c stack out new e,
          Explored-fresh visited stack out c new r,
        )
  ]

  Explored-complete :
      (visited stack out : List Bytes) (r : Explored visited stack out) {c : Bytes}
      → Reaches api tables visited stack c
      → has_cid r.seen c ≡ true
  Explored-complete visited stack out r (starts_at c s v) = r.started c s v
  Explored-complete visited stack out r (follows p c t l v) =
      r.closed p c (Explored-complete visited stack out r t) l v

  has_cid-select :
      (cids : List Bytes) (c : Bytes)
      → has_cid (select cids) c ≡ (has_cid cids c && include_cid api filter c)
  unfolding select has_cid
  has_cid-select [] c = ground arith
  has_cid-select (x ∷ cids) c = elim (Bool-cases (equal x c)) [
    | inl same ↦
        ground (arith, has_cid-select cids c, ap (include_cid api filter) ((equal_iff x c).0 same))
    | inr other ↦ ground (arith, has_cid-select cids c)
  ]

  select-AreUnique : (cids : List Bytes) → AreUnique cids → AreUnique (select cids)
  unfolding select
  select-AreUnique [] u = tt
  select-AreUnique (c ∷ cids) u = elim (Bool-cases (include_cid api filter c)) [
    | inl included ↦
        rw included ((ground (arith, has_cid-select cids c, u.0), select-AreUnique cids u.1))
    | inr left_out ↦ rw left_out (select-AreUnique cids u.1)
  ]

-- What a full traversal promises: no CID twice, and exactly the CIDs that the filter includes
-- and that links reach from the root past the CIDs that were visited before.
pub record Selects (api : Api) (opts : FullTraversalOpts) (tables : Tables) (out : List Bytes)
    : Type 0 where
  pub unique : AreUnique out
  pub exact :
      (c : Bytes)
      → (has_cid out c ≡ true) ↔ (
          Reaches api tables opts.visited (opts.root ∷ []) c
          × (include_cid api (filter_of opts) c ≡ true))

Explored-Selects :
    (api : Api) (opts : FullTraversalOpts) (tables : Tables) (out : List Bytes)
    → Explored api (filter_of opts) tables opts.visited (opts.root ∷ []) out
    → Selects api opts tables out
Explored-Selects api opts tables out r = record {
  unique = subst AreUnique (sym r.out_is) (select-AreUnique api filter tables r.seen r.unique);
  exact = λ c. (
    (λ h. (r.reached c (ground (arith, has c, h)), ground (arith, has c, h))),
    (λ h. ground (
      arith,
      has c,
      h.1,
      Explored-complete api filter tables opts.visited (opts.root ∷ []) out r h.0,
    )),
  );
}
  where
    filter : TraversalFilter
    filter = filter_of opts

    has : (c : Bytes) → has_cid out c ≡ (has_cid r.seen c && include_cid api filter c)
    has c =
        ap (λ (o : List Bytes). has_cid o c) r.out_is ∙ has_cid-select api filter tables r.seen c

-- A full traversal always returns, within one step more than the tables have links, and its
-- result has no CID twice and is exactly the CIDs that the filter includes and that links
-- reach from the root past the CIDs that were visited before.
pub full_traversal-Selects :
    (api : Api) (opts : FullTraversalOpts) (tables : Tables)
    → (out : List Bytes) × (full_traversal api opts tables ≡ some out) × Selects api opts tables out
unfolding full_traversal
full_traversal-Selects api opts tables =
    let (out, e, r) =
      traverse-Explores api (filter_of opts) tables (suc (count_links tables.links)) opts.visited
        (opts.root ∷ []) (omega (arith, count_fresh-links opts.visited tables.links)) in
    (out, e, Explored-Selects api opts tables out r)
